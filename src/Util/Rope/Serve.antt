-- ===== src/Util/Rope/Serve.antt =====
-- `insert` answers: its recursive calls stay below the fuel.
use trunk.Prelude.{
  ℕ, zero, suc, ◌+◌, ◌-◌, ◌*◌, ◌≤◌, ◌<◌, max, ◌≡◌, refl, ap, ◌∙◌, sym, List, [], ◌++◌, Option, some,
  take, drop, length, length-drop, arith,
}
use trunk.Util.Rope.{Rep, nil, node, Gen, buffer_size, Inserter, splice, fill, place, insert_rep}
use native.Mathlib.Decide.{dec_lt}
use trunk.Util.Rope.{balance_left, balance_right, Rope, insert}
use trunk.Util.Rope.Content.{content, IsWf, nodes, length-content, text, IsValid}
use trunk.Util.Rope.Balance.{balance_left-Rearranged, balance_right-Rearranged}
use trunk.Util.Rope.Insert.{weight, Inserted, Inserted-Rearranged, left-Inserted, right-Inserted}
use trunk.Util.Rope.Insert.{fits-Inserted, tail-Inserted, both-Inserted, length-Inserted, grows}

-- The insertion answers.
abbrev pub Answers : Option (Rep × Gen) → Rep → ℕ → List ℕ → Type 0
Answers o t index str = (t' : Rep) × (g' : Gen) × (o ≡ some (t', g')) × Inserted t index str t'

-- The recursive calls answer below a bound.
abbrev Serves : Inserter → ℕ → Type 0
Serves insert bound =
    (t : Rep) (index : ℕ) (str : List ℕ) (g : Gen)
    → IsWf t
    → index ≤ length (content t)
    → weight t + 2 * length str < bound
    → Answers (insert t index str g) t index str

right_balanced :
    (t : Rep) (index : ℕ) (str : List ℕ) (u : Rep) (g : Gen)
    → Inserted t index str u
    → Answers (some (balance_right u, g)) t index str
right_balanced t index str u g i =
    (balance_right u, g, refl, Inserted-Rearranged t index str u _ i (balance_right-Rearranged u))

left_balanced :
    (t : Rep) (index : ℕ) (str : List ℕ) (u : Rep) (g : Gen)
    → Inserted t index str u
    → Answers (some (balance_left u, g)) t index str
left_balanced t index str u g i =
    (balance_left u, g, refl, Inserted-Rearranged t index str u _ i (balance_left-Rearranged u))

-- `fill` on each of its branches, from what the recursive calls return.
module _ (insert : Inserter) (l : Rep) (lsize p : ℕ) (buf : List ℕ) (r : Rep) where
  fill_fits :
      (i : ℕ) (str : List ℕ) (g : Gen)
      → length buf + length str ≤ buffer_size
      → fill insert l lsize p buf r i str g
        ≡ some (balance_right (node l lsize p (splice i str buf) r), g)
  unfolding fill
  fill_fits i str g fits = ground arith

  fill_tail :
      (i keep : ℕ) (str : List ℕ) (g g1 : Gen) (r1 : Rep)
      → keep ≡ max buffer_size (i + length str) - length str
      → buffer_size < length buf + length str
      → i + length str ≤ buffer_size
      → insert r 0 (drop keep buf) g ≡ some (r1, g1)
      → fill insert l lsize p buf r i str g
        ≡ some (balance_right (node l lsize p (splice i str (take keep buf)) r1), g1)
  unfolding fill
  fill_tail i keep str g g1 r1 k over fits e = rw (← k) (ground arith)

  fill_both :
      (i n : ℕ) (str : List ℕ) (g g1 g2 : Gen) (r1 r2 : Rep)
      → i ≡ max buffer_size (i + length str) - length str
      → n ≡ buffer_size - i
      → buffer_size < length buf + length str
      → buffer_size < i + length str
      → insert r 0 (drop i buf) g ≡ some (r1, g1)
      → insert r1 0 (drop n str) g1 ≡ some (r2, g2)
      → fill insert l lsize p buf r i str g
        ≡ some (balance_right (node l lsize p (splice i (take n str) (take i buf)) r2), g2)
  unfolding fill
  fill_both i n str g g1 g2 r1 r2 k kn over more e1 e2 = rw (← k) (ground arith)

  place_left :
      (index : ℕ) (str : List ℕ) (g g' : Gen) (l' : Rep)
      → index < lsize
      → insert l index str g ≡ some (l', g')
      → place insert l lsize p buf r index str g
        ≡ some (balance_left (node l' (lsize + length str) p buf r), g')
  unfolding place
  place_left index str g g' l' h e = ground arith

  place_right :
      (index i : ℕ) (str : List ℕ) (g g' : Gen) (r' : Rep)
      → index ≡ lsize + (length buf + i)
      → 0 < i
      → insert r i str g ≡ some (r', g')
      → place insert l lsize p buf r index str g ≡ some (balance_right (node l lsize p buf r'), g')
  unfolding place
  place_right index i str g g' r' h pos e =
      let k : i ≡ index - lsize - length buf = omega arith in
      ground (arith, sym (ap (λ j. insert r j str g) k) ∙ e)

  place-fill :
      (index i : ℕ) (str : List ℕ) (g : Gen)
      → index ≡ lsize + i
      → i ≤ length buf
      → place insert l lsize p buf r index str g ≡ fill insert l lsize p buf r i str g
  unfolding place
  place-fill index i str g e h =
      let k : index - lsize ≡ i = omega arith in
      ground (arith, ap (λ j. fill insert l lsize p buf r j str g) k)

module _ (insert : Inserter) (bound : ℕ) (serves : Serves insert bound) (l : Rep) (lsize p : ℕ)
    (buf : List ℕ) (r : Rep) (wf : IsWf (node l lsize p buf r)) where
  both-Answers :
      (index i : ℕ) (str : List ℕ) (g : Gen)
      → index ≡ lsize + i
      → i ≤ length buf
      → weight r + length buf + 2 * length str ≤ bound
      → buffer_size < i + length str
      → buffer_size < length buf + length str
      → Answers (fill insert l lsize p buf r i str g) (node l lsize p buf r) index str
  both-Answers index i str g e h b more over =
      let n : ℕ = buffer_size - i in
      let (r1, g1, e1, a1) =
        serves r 0 (drop i buf) g wf.3 (omega arith) (omega (arith, length-drop i buf)) in
      let (r2, g2, e2, a2) = serves r1 0 (drop n str) g1 a1.wf (omega arith) (
        omega (
          arith,
          length-drop i buf,
          length-drop n str,
          grows r 0 (drop i buf) r1 a1,
          length-Inserted r 0 (drop i buf) r1 (omega arith) a1,
        )) in
      rw (fill_both insert l lsize p buf r i n str g g1 g2 r1 r2 (omega arith) refl over more e1 e2)
        (right_balanced _ index str _ g2
          (both-Inserted l lsize p buf r wf index i str r1 r2 e h more a1 a2))

  tail-Answers :
      (index i : ℕ) (str : List ℕ) (g : Gen)
      → index ≡ lsize + i
      → i ≤ length buf
      → weight r + length buf + 2 * length str ≤ bound
      → i + length str ≤ buffer_size
      → buffer_size < length buf + length str
      → Answers (fill insert l lsize p buf r i str g) (node l lsize p buf r) index str
  tail-Answers index i str g e h b fits over =
      let keep : ℕ = buffer_size - length str in
      let (r1, g1, e1, a1) =
        serves r 0 (drop keep buf) g wf.3 (omega arith)
          (omega (arith, wf.2, length-drop keep buf)) in
      rw (fill_tail insert l lsize p buf r i keep str g g1 r1 (omega arith) over fits e1) (
        right_balanced _ index str _ g1 (
          tail-Inserted l lsize p buf r wf index i keep str r1 e (omega arith) (omega arith)
            (omega arith) (omega arith) a1))

  fill-Answers :
      (index i : ℕ) (str : List ℕ) (g : Gen)
      → index ≡ lsize + i
      → i ≤ length buf
      → weight r + length buf + 2 * length str ≤ bound
      → Answers (fill insert l lsize p buf r i str g) (node l lsize p buf r) index str
  fill-Answers index i str g e h b = elim (dec_lt buffer_size (length buf + length str)) [
    | no fits ↦ rw (fill_fits insert l lsize p buf r i str g (omega arith)) (
        right_balanced _ index str _ g
          (fits-Inserted l lsize p buf r wf index i str e h (omega arith)))
    | yes over ↦ elim (dec_lt buffer_size (i + length str)) [
      | yes more ↦ both-Answers index i str g e h b more over
      | no fits ↦ tail-Answers index i str g e h b (omega arith) over
    ]
  ]

  place-Answers :
      (index : ℕ) (str : List ℕ) (g : Gen)
      → index ≤ length (content (node l lsize p buf r))
      → weight (node l lsize p buf r) + 2 * length str ≤ bound
      → Answers (place insert l lsize p buf r index str g) (node l lsize p buf r) index str
  place-Answers index str g h b = elim (dec_lt index lsize) [
    | yes less ↦
        (let (l', g', e, a) =
            serves l index str g wf.0 (omega (arith, wf.1))
              (omega (arith, length-content l buf r)) in
          rw (place_left insert l lsize p buf r index str g g' l' less e)
            (left_balanced _ index str _ g' (left-Inserted l lsize p buf r wf index str l' less a)))
    | no past ↦ elim (dec_lt (length buf) (index - lsize)) [
      | yes beyond ↦
          (let i : ℕ = index - lsize - length buf in
            let fits : i ≤ length (content r) = omega (arith, wf.1, length-content l buf r) in
            let (r', g', e, a) =
              serves r i str g wf.3 fits (omega (arith, length-content l buf r)) in
            rw
              (place_right insert l lsize p buf r index i str g g' r' (omega arith) (omega arith) e)
              (right_balanced _ index str _ g' (
                right-Inserted l lsize p buf r wf index i str r' (omega arith) (omega arith) fits
                  a)))
      | no inside ↦
          (let i : ℕ = index - lsize in
            rw (place-fill insert l lsize p buf r index i str g (omega arith) (omega arith)) (
              fill-Answers index i str g (omega arith) (omega arith)
                (omega (arith, length-content l buf r))))
    ]
  ]

-- An empty node stands for the null tree.
nil-Inserted :
    (p : ℕ) (str : List ℕ) (t' : Rep)
    → Inserted (node nil 0 p [] nil) 0 str t'
    → Inserted nil 0 str t'
nil-Inserted p str t' i = record {
  wf = i.wf;
  same = i.same;
  some_node = i.some_node;
  vacant = λ _. i.vacant (omega arith);
  grown = λ h. absurd (omega arith);
}

-- The null tree: a node is made, and the string goes into it.
nil-Answers :
    (insert : Inserter) (bound p : ℕ)
    → Serves insert bound
    → (str : List ℕ) (g : Gen) → 2 * length str ≤ bound
    → Answers (place insert nil 0 p [] nil 0 str g) nil 0 str
nil-Answers insert bound p serves str g b =
    let (t', g', e, i) =
      fill-Answers insert bound serves nil 0 p [] nil (omega arith) 0 0 str g (omega arith)
        (omega arith) (omega arith) in
    (
      t',
      g',
      place-fill insert nil 0 p [] nil 0 0 str g (omega arith) (omega arith) ∙ e,
      nil-Inserted p str t' i,
    )

-- With more fuel than nodes, bytes, and bytes of the string twice, the recursion answers.
pub insert_rep-Answers :
    (fuel : ℕ) (t : Rep) (index : ℕ) (str : List ℕ) (g : Gen)
    → IsWf t
    → index ≤ length (content t)
    → weight t + 2 * length str < fuel
    → Answers (insert_rep fuel t index str g) t index str
unfolding insert_rep
insert_rep-Answers zero t index str g wf h b = absurd (omega arith)
insert_rep-Answers (suc fuel) nil index str g wf h b =
    let e : index ≡ 0 = omega arith in
    rw e (
      nil-Answers (insert_rep fuel) fuel (g 0) (insert_rep-Answers fuel) str (λ i. g (suc i))
        (omega arith))
insert_rep-Answers (suc fuel) (node l lsize p buf r) index str g wf h b =
    place-Answers (insert_rep fuel) fuel (insert_rep-Answers fuel) l lsize p buf r wf index str g h
      (omega arith)

-- `insert` into a well-formed rope, at an index within its text: with fuel for its nodes and bytes
-- it returns a well-formed rope whose text has the string put in at the index, and no other change.
pub insert_lem :
    (fuel : ℕ) (rope : Rope) (index : ℕ) (str : List ℕ)
    → IsValid rope
    → index ≤ length (text rope)
    → nodes rope.rep + length (text rope) + 2 * length str < fuel
    → (rope' : Rope) × (insert fuel rope index str ≡ some rope')
      × IsValid rope'
      × (text rope' ≡ take index (text rope) ++ (str ++ drop index (text rope)))
unfolding insert
insert_lem fuel rope index str wf h b =
    let (rep, gen, e, i) = insert_rep-Answers fuel rope.rep index str rope.gen wf h b in
    (record { rep = rep; gen = gen }, rw e, i.wf, i.same)

-- An insertion makes at most one new node for each byte put in, and at most one for an empty string.
pub nodes-insert :
    (fuel : ℕ) (rope : Rope) (index : ℕ) (str : List ℕ) {rope' : Rope}
    → IsValid rope
    → index ≤ length (text rope)
    → nodes rope.rep + length (text rope) + 2 * length str < fuel
    → insert fuel rope index str ≡ some rope'
    → nodes rope'.rep ≤ nodes rope.rep + max 1 (length str)
unfolding insert
nodes-insert fuel rope index str {rope'} wf h b r =
    let (rep, gen, e, i) = insert_rep-Answers fuel rope.rep index str rope.gen wf h b in
    let same : rope' ≡ record { rep = rep; gen = gen } = cc (e, r) in
    rw same (grows rope.rep index str rep i)
