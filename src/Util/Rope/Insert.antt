-- ===== src/Util/Rope/Insert.antt =====
-- `Rope::insert`: enough fuel, the text after it, and the tree it leaves.
use trunk.Prelude.{
  ℕ, ◌+◌, ◌-◌, ◌≤◌, ◌<◌, min, max, ◌≡◌, refl, ap, ◌∙◌, sym, List, ◌++◌, take, drop, length,
  length-take, length-drop, arith,
}
use trunk.Util.Rope.{Rep, nil, node, buffer_size, splice}
use trunk.Util.Rope.Content.{content, IsWf, nodes, length-content, length-splice}
use trunk.Util.Rope.Content.{splice-append_left, splice-append_right, nodes_of_bytes}
use trunk.Util.Rope.Spill.{spill_tail, spill_both}
use trunk.Util.Rope.Balance.{Rearranged}

-- Nodes and bytes.
abbrev pub weight : Rep → ℕ
weight t = nodes t + length (content t)

-- What an insertion makes of a tree. A tree of weight 1 at most is null or one empty node.
pub record Inserted (t : Rep) (index : ℕ) (str : List ℕ) (t' : Rep) : Type 0 where
  pub wf : IsWf t'
  pub same : content t' ≡ splice index str (content t)
  pub some_node : 1 ≤ nodes t'
  pub vacant : weight t ≤ 1 → nodes t' ≤ max 1 (length str)
  pub grown : 1 ≤ nodes t → nodes t' ≤ nodes t + length str

-- An insertion that is balanced afterwards.
pub Inserted-Rearranged :
    (t : Rep) (index : ℕ) (str : List ℕ) (u v : Rep)
    → Inserted t index str u
    → Rearranged u v
    → Inserted t index str v
Inserted-Rearranged t index str u v i a = record {
  wf = a.wf i.wf;
  same = a.same ∙ i.same;
  some_node = omega (arith, i.some_node, a.count);
  vacant = λ h. omega (arith, i.vacant h, a.count);
  grown = λ h. omega (arith, i.grown h, a.count);
}

pub length-Inserted :
    (t : Rep) (index : ℕ) (str : List ℕ) (t' : Rep)
    → index ≤ length (content t)
    → Inserted t index str t'
    → length (content t') ≡ length str + length (content t)
length-Inserted t index str t' h i = ap length i.same ∙ length-splice index str (content t) h

pub grows :
    (t : Rep) (index : ℕ) (str : List ℕ) (t' : Rep)
    → Inserted t index str t'
    → nodes t' ≤ nodes t + max 1 (length str)
grows nil index str t' i = omega (arith, i.vacant (omega arith))
grows (node l lsize p buf r) index str t' i = omega (arith, i.grown (omega arith))

bytes_of_no_nodes : (t : Rep) → nodes t ≡ 0 → length (content t) ≡ 0
bytes_of_no_nodes nil h = refl
bytes_of_no_nodes (node l lsize p buf r) h = absurd (omega arith)

module _ (l : Rep) (lsize p : ℕ) (buf : List ℕ) (r : Rep) (wf : IsWf (node l lsize p buf r)) where
  -- At the left child.
  pub left-Inserted :
      (index : ℕ) (str : List ℕ) (l' : Rep)
      → index < lsize
      → Inserted l index str l'
      → Inserted (node l lsize p buf r) index str (node l' (lsize + length str) p buf r)
  left-Inserted index str l' h i = record {
    wf = (i.wf, omega (arith, wf.1, length-Inserted l index str l' le i), wf.2, wf.3);
    same =
        ap (λ t. t ++ (buf ++ content r)) i.same
        ∙ sym (splice-append_left index str (content l) (buf ++ content r) le);
    some_node = omega arith;
    vacant = λ v. absurd (omega (arith, wf.1, length-content l buf r));
    grown = λ _. omega (arith, i.grown, nodes_of_bytes l (omega (arith, wf.1)));
  }
    where
      le : index ≤ length (content l)
      le = omega (arith, wf.1)

  -- At the right child.
  pub right-Inserted :
      (index i : ℕ) (str : List ℕ) (r' : Rep)
      → index ≡ lsize + (length buf + i)
      → 0 < i
      → i ≤ length (content r)
      → Inserted r i str r'
      → Inserted (node l lsize p buf r) index str (node l lsize p buf r')
  right-Inserted index i str r' e pos h a = record {
    wf = (wf.0, wf.1, wf.2, a.wf);
    same =
        ap (λ t. content l ++ (buf ++ t)) a.same
        ∙ ap (λ t. content l ++ t)
            (sym (splice-append_right i str buf (content r) (length buf + i) refl))
        ∙ sym (
            splice-append_right (length buf + i) str (content l) (buf ++ content r) index
              (omega (arith, wf.1)));
    some_node = omega arith;
    vacant = λ v. absurd (omega (arith, wf.1, length-content l buf r));
    grown = λ _. omega (arith, a.grown, nodes_of_bytes r (omega arith));
  }

  -- In the buffer: the text, for each way in which buffer and right child may be left.
  buffer_same :
      (index i : ℕ) (str : List ℕ) (buf' right : List ℕ)
      → index ≡ lsize + i
      → i ≤ length buf
      → buf' ++ right ≡ splice i str buf ++ content r
      → content l ++ (buf' ++ right) ≡ splice index str (content l ++ (buf ++ content r))
  buffer_same index i str buf' right e h same =
      ap (λ t. content l ++ t) (same ∙ sym (splice-append_left i str buf (content r) h))
      ∙ sym (splice-append_right i str (content l) (buf ++ content r) index (omega (arith, wf.1)))

  pub fits-Inserted :
      (index i : ℕ) (str : List ℕ)
      → index ≡ lsize + i
      → i ≤ length buf
      → length buf + length str ≤ buffer_size
      → Inserted (node l lsize p buf r) index str (node l lsize p (splice i str buf) r)
  fits-Inserted index i str e h fits = record {
    wf = (wf.0, wf.1, omega (arith, length-splice i str buf h), wf.3);
    same = buffer_same index i str (splice i str buf) (content r) e h refl;
    some_node = omega arith;
    vacant = λ v. omega arith;
    grown = λ _. omega arith;
  }

  pub tail-Inserted :
      (index i keep : ℕ) (str : List ℕ) (r1 : Rep)
      → index ≡ lsize + i
      → i ≤ keep
      → keep < length buf
      → keep + length str ≤ buffer_size
      → length buf ≤ keep + length str
      → Inserted r 0 (drop keep buf) r1
      → Inserted (node l lsize p buf r) index str (node l lsize p (splice i str (take keep buf)) r1)
  tail-Inserted index i keep str r1 e h k fits over a = record {
    wf = (
      wf.0,
      wf.1,
      omega (arith, length-splice i str (take keep buf) (omega (arith, taken)), taken),
      a.wf,
    );
    same = buffer_same index i str (splice i str (take keep buf)) (content r1) e (omega arith) (
        ap (λ t. splice i str (take keep buf) ++ t) a.same
        ∙ spill_tail i str buf (content r) keep h (omega arith));
    some_node = omega arith;
    vacant = λ v. absurd (omega (arith, length-content l buf r));
    grown = λ _. omega (arith, grows r 0 (drop keep buf) r1 a, length-drop keep buf);
  }
    where
      taken : length (take keep buf) ≡ min keep (length buf)
      taken = length-take keep buf

  full_buffer :
      (i : ℕ) (str : List ℕ)
      → buffer_size < i + length str
      → i ≤ length buf
      → length (splice i (take (buffer_size - i) str) (take i buf)) ≤ buffer_size
  full_buffer i str over h = omega (
    arith,
    length-splice i (take (buffer_size - i) str) (take i buf) (omega (arith, length-take i buf)),
    length-take i buf,
    length-take (buffer_size - i) str,
  )

  -- The buffer is full up to its end, and the rest of the string goes in front of the tail.
  pub both-Inserted :
      (index i : ℕ) (str : List ℕ) (r1 r2 : Rep)
      → index ≡ lsize + i
      → i ≤ length buf
      → buffer_size < i + length str
      → Inserted r 0 (drop i buf) r1
      → Inserted r1 0 (drop (buffer_size - i) str) r2
      → Inserted
          (node l lsize p buf r)
          index
          str
          (node l lsize p (splice i (take (buffer_size - i) str) (take i buf)) r2)
  both-Inserted index i str r1 r2 e h over a b = record {
    wf = (wf.0, wf.1, full_buffer i str over h, b.wf);
    same =
        buffer_same index i str (splice i (take (buffer_size - i) str) (take i buf)) (content r2) e
          h
          (ap (λ t. splice i (take (buffer_size - i) str) (take i buf) ++ t)
              (b.same ∙ ap (λ t. drop (buffer_size - i) str ++ t) a.same)
            ∙ spill_both i str buf (content r) (buffer_size - i));
    some_node = omega arith;
    vacant = λ v. ground (arith, facts, length-content l buf r);
    grown = λ _. ground (arith, facts, bytes_of_no_nodes r, length-drop i buf);
  }
    where
      facts :
          (length (content r1) ≡ length buf - i + length (content r))
          × (length (drop (buffer_size - i) str) ≡ length str - (buffer_size - i))
          × (length (drop i buf) ≡ length buf - i)
      facts = (
        length-Inserted r 0 (drop i buf) r1 (omega arith) a ∙ omega (arith, length-drop i buf),
        length-drop (buffer_size - i) str,
        length-drop i buf,
      )
