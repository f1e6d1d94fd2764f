-- ===== src/Util/Rope/Erase.antt =====
-- `Rope::erase`: the text after it.
use trunk.Prelude.{
  ℕ, ◌+◌, ◌-◌, ◌≤◌, ◌<◌, min, ◌≡◌, refl, ap, ◌∙◌, sym, List, [], ◌∷◌, ◌++◌, Option, some, ◌==◌,
  false, take, drop, length, length-append, arith,
}
use trunk.Util.Rope.{Rep, nil, node, buffer_size, cut, erase_out, erase_rest, erase_rep}
use trunk.Util.Rope.{Rope, erase}
use trunk.Util.Rope.Content.{content, IsWf, text, IsValid, length-content}
use trunk.Util.Rope.Balance.{merge-Joined}
use native.Mathlib.Numerals.{add-one}
use native.Mathlib.Decide.{dec_lt, dec_le}
use trunk.Util.Rope.Cut.{cut-append_left, cut-append_right, cut-append_across, length-cut}

-- A node whose buffer is used up gives way to its children.
record Kept (l : Rep) (buf : List ℕ) (r : Rep) (t' : Rep) : Type 0 where
  wf : IsWf t'
  same : content t' ≡ content l ++ (buf ++ content r)

erase_out-Kept :
    (l : Rep) (lsize p : ℕ) (buf : List ℕ) (r : Rep)
    → IsWf (node l lsize p buf r)
    → Kept l buf r (erase_out l lsize p buf r)
unfolding erase_out
erase_out-Kept l lsize p [] r wf =
    let j = merge-Joined l r in record { wf = j.wf wf.0 wf.3; same = j.same }
erase_out-Kept l lsize p (b ∷ buf) r wf =
    let full : ((length buf + 1) == 0) ≡ false = ground arith in
    rw (← add-one (length buf), full) (record { wf = wf; same = refl })

-- The range lies inside the text, and starts before its end.
abbrev pub IsInside : ℕ → ℕ → List ℕ → Type 0
IsInside index size xs = (index < length xs) × (index + size ≤ length xs)

abbrev Erased : Option Rep → List ℕ → Type 0
Erased o xs = (t' : Rep) × (o ≡ some t') × IsWf t' × (content t' ≡ xs)

abbrev ErasesChild : (ℕ → ℕ → Option Rep) → Rep → Type 0
ErasesChild erase_rchild r =
    (index size : ℕ)
    → IsInside index size (content r)
    → Erased (erase_rchild index size) (cut index size (content r))

module _ (erase_rchild : ℕ → ℕ → Option Rep) (l : Rep) (lsize p : ℕ) (buf : List ℕ) (r : Rep)
    (wf : IsWf (node l lsize p buf r)) (child : ErasesChild erase_rchild r) where
  out_with :
      (buf' : List ℕ) (r' : Rep) (xs : List ℕ)
      → length buf' ≤ buffer_size
      → IsWf r'
      → buf' ++ content r' ≡ xs
      → Erased (some (erase_out l lsize p buf' r')) (content l ++ xs)
  out_with buf' r' xs fits wr e =
      let k = erase_out-Kept l lsize p buf' r' (wf.0, wf.1, fits, wr) in
      (erase_out l lsize p buf' r', refl, k.wf, k.same ∙ ap (λ t. content l ++ t) e)

  rest_within :
      (index size : ℕ)
      → index < length buf
      → index + size ≤ length buf
      → erase_rest erase_rchild l lsize p buf r index size
        ≡ some (erase_out l lsize p (cut index size buf) r)
  unfolding erase_rest
  rest_within index size h k =
      let e : min size (length buf - index) ≡ size = omega arith in rw e (ground arith)

  rest_across :
      (index size k m : ℕ) (r' : Rep)
      → index + k ≡ length buf
      → size ≡ k + m
      → 0 < k
      → 0 < m
      → erase_rchild 0 m ≡ some r'
      → erase_rest erase_rchild l lsize p buf r index size
        ≡ some (erase_out l lsize p (cut index k buf) r')
  unfolding erase_rest
  rest_across index size k m r' hk hm pk pm e =
      let e1 : min size (length buf - index) ≡ k = omega arith in
      let e2 : size - k ≡ m = omega arith in rw (e1, e2) (ground arith)

  rest_past :
      (index size j : ℕ) (r' : Rep)
      → index ≡ length buf + j
      → erase_rchild j size ≡ some r'
      → erase_rest erase_rchild l lsize p buf r index size ≡ some (erase_out l lsize p buf r')
  unfolding erase_rest
  rest_past index size j r' hj e =
      let e1 : index - length buf ≡ j = omega arith in rw e1 (ground arith)

  erase_rest-Erased :
      (index size : ℕ)
      → IsInside index size (buf ++ content r)
      → Erased
          (erase_rest erase_rchild l lsize p buf r index size)
          (content l ++ cut index size (buf ++ content r))
  erase_rest-Erased index size h = elim (dec_lt index (length buf)) [
    | no past ↦
        (let j : ℕ = index - length buf in
          let (r', e, wr, same) = child j size (omega (arith, length-append buf (content r))) in
          rw (rest_past index size j r' (omega arith) e) (
            out_with buf r' _ wf.2 wr (
              ap (λ t. buf ++ t) same
              ∙ sym (cut-append_right index size buf (content r) j (omega arith)))))
    | yes inside ↦ elim (dec_le (index + size) (length buf)) [
      | yes within ↦ rw (rest_within index size inside within) (
          out_with (cut index size buf) r _ (omega (arith, wf.2, length-cut index size buf within))
            wf.3 (sym (cut-append_left index size buf (content r) within)))
      | no across ↦
          (let k : ℕ = length buf - index in
            let m : ℕ = size - k in
            let (r', e, wr, same) = child 0 m (omega (arith, length-append buf (content r))) in
            rw
              (rest_across index size k m r' (omega arith) (omega arith) (omega arith) (omega arith)
                e)
              (out_with (cut index k buf) r' _
                (omega (arith, wf.2, length-cut index k buf (omega arith))) wr
                (ap (λ t. cut index k buf ++ t) same
                  ∙ sym (
                      cut-append_across index size buf (content r) k m (omega arith)
                        (omega arith)))))
    ]
  ]

module _ (l : Rep) (lsize p : ℕ) (buf : List ℕ) (r : Rep) where
  rep_within :
      (index size : ℕ) (l' : Rep)
      → index < lsize
      → index + size ≤ lsize
      → erase_rep l index size ≡ some l'
      → erase_rep (node l lsize p buf r) index size ≡ some (erase_out l' (lsize - size) p buf r)
  unfolding erase_rep
  rep_within index size l' h k e =
      let e1 : min size (lsize - index) ≡ size = omega arith in rw e1 (ground arith)

  pub rep_across :
      (index size k m : ℕ) (l' : Rep)
      → index + k ≡ lsize
      → size ≡ k + m
      → 0 < k
      → 0 < m
      → erase_rep l index k ≡ some l'
      → erase_rep (node l lsize p buf r) index size ≡ erase_rest (erase_rep r) l' index p buf r 0 m
  unfolding erase_rep
  rep_across index size k m l' hk hm pk pm e =
      let e1 : min size (lsize - index) ≡ k = omega arith in
      let e2 : size - k ≡ m = omega arith in
      let e3 : lsize - k ≡ index = omega arith in rw (e1, e2, e3) (ground arith)

  pub rep_past :
      (index size j : ℕ)
      → index ≡ lsize + j
      → erase_rep (node l lsize p buf r) index size
        ≡ erase_rest (erase_rep r) l lsize p buf r j size
  unfolding erase_rep
  rep_past index size j hj = let e : index - lsize ≡ j = omega arith in rw e (ground arith)

-- What `erase` gives at a node from what it gives at the children.
node-Erased :
    (l : Rep) (lsize p : ℕ) (buf : List ℕ) (r : Rep)
    → IsWf (node l lsize p buf r)
    → ErasesChild (erase_rep l) l
    → ErasesChild (erase_rep r) r
    → ErasesChild (erase_rep (node l lsize p buf r)) (node l lsize p buf r)
node-Erased l lsize p buf r wf left right index size h = elim (dec_lt index lsize) [
  | no past ↦
      (let j : ℕ = index - lsize in
        rw
          (
            rep_past l lsize p buf r index size j (omega arith),
            cut-append_right index size (content l) (buf ++ content r) j (omega (arith, wf.1)),
          )
          (erase_rest-Erased (erase_rep r) l lsize p buf r wf right j size
            (omega (arith, length-content l buf r, length-append buf (content r), wf.1))))
  | yes inside ↦ elim (dec_le (index + size) lsize) [
    | yes within ↦
        (let (l', e, wl, same) = left index size (omega (arith, wf.1)) in
          let wf' : IsWf (node l' (lsize - size) p buf r) = (
            wl,
            omega (
              arith,
              wf.1,
              ap (λ xs. length xs) same,
              length-cut index size (content l) (omega (arith, wf.1)),
            ),
            wf.2,
            wf.3,
          ) in
          let k = erase_out-Kept l' (lsize - size) p buf r wf' in
          rw
            (
              rep_within l lsize p buf r index size l' inside within e,
              cut-append_left index size (content l) (buf ++ content r) (omega (arith, wf.1)),
            )
            (
              erase_out l' (lsize - size) p buf r,
              refl,
              k.wf,
              k.same ∙ ap (λ t. t ++ (buf ++ content r)) same,
            ))
    | no across ↦
        (let k : ℕ = lsize - index in
          let m : ℕ = size - k in
          let (l', e, wl, same) = left index k (omega (arith, wf.1)) in
          let wf' : IsWf (node l' index p buf r) = (
            wl,
            omega (
              arith,
              wf.1,
              ap (λ xs. length xs) same,
              length-cut index k (content l) (omega (arith, wf.1)),
            ),
            wf.2,
            wf.3,
          ) in
          let (t', e', wt, same') =
            erase_rest-Erased (erase_rep r) l' index p buf r wf' right 0 m
              (omega (arith, length-content l buf r, length-append buf (content r), wf.1)) in
          rw
            (
              rep_across l lsize p buf r index size k m l' (omega arith) (omega arith) (omega arith)
                  (omega arith) e,
              cut-append_across index size (content l) (buf ++ content r) k m (omega (arith, wf.1))
                  (omega arith),
            )
            (t', e', wt, same' ∙ ap (λ t. t ++ cut 0 m (buf ++ content r)) same))
  ]
]

pub erase_rep-Erased : (t : Rep) → IsWf t → ErasesChild (erase_rep t) t
erase_rep-Erased nil wf = λ index size h. absurd (omega arith)
erase_rep-Erased (node l lsize p buf r) wf =
    node-Erased l lsize p buf r wf (erase_rep-Erased l wf.0) (erase_rep-Erased r wf.3)

-- `erase` of a range inside the text of a well-formed rope returns a well-formed rope whose text
-- is the text without that range.
pub erase_lem :
    (rope : Rope) (index size : ℕ)
    → IsValid rope
    → IsInside index size (text rope)
    → (rope' : Rope) × (erase rope index size ≡ some rope')
      × IsValid rope'
      × (text rope' ≡ take index (text rope) ++ drop (index + size) (text rope))
unfolding erase
erase_lem rope index size wf h =
    let (rep, e, wr, same) = erase_rep-Erased rope.rep wf index size h in
    (record { rep = rep; gen = rope.gen }, rw e, wr, same)
