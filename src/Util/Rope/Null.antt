-- ===== src/Util/Rope/Null.antt =====
-- Where `Rope::erase` dereferences a null pointer.
use trunk.Prelude.{
  ℕ, ◌+◌, ◌-◌, ◌<◌, min, ◌≡◌, refl, List, ◌++◌, Option, none, length, length-append, arith,
}
use trunk.Util.Rope.{Rep, nil, node, erase_rest, erase_rep}
use trunk.Util.Rope.{Rope, erase}
use trunk.Util.Rope.Content.{content, IsWf, text, IsValid}
use native.Mathlib.Decide.{dec_lt}
use trunk.Util.Rope.Erase.{rep_across, rep_past, erase_rep-Erased}

-- A range that starts or ends past the end.
abbrev pub IsOutside : ℕ → ℕ → List ℕ → Type 0
IsOutside index size xs = index < length xs → length xs < index + size

module _ (erase_rchild : ℕ → ℕ → Option Rep) (l : Rep) (lsize p : ℕ) (buf : List ℕ) (r : Rep)
    (null : (index size : ℕ)
      → IsOutside index size (content r)
      → erase_rchild index size ≡ none) where
  null_across :
      (index size m : ℕ)
      → index < length buf
      → size ≡ length buf - index + m
      → 0 < m
      → erase_rchild 0 m ≡ none
      → erase_rest erase_rchild l lsize p buf r index size ≡ none
  unfolding erase_rest
  null_across index size m h hm pm e =
      let e2 : size - min size (length buf - index) ≡ m = omega arith in rw e2 (ground arith)

  null_past :
      (index size j : ℕ)
      → index ≡ length buf + j
      → erase_rchild j size ≡ none
      → erase_rest erase_rchild l lsize p buf r index size ≡ none
  unfolding erase_rest
  null_past index size j hj e =
      let e1 : index - length buf ≡ j = omega arith in rw e1 (ground arith)

  erase_rest-null :
      (index size : ℕ)
      → IsOutside index size (buf ++ content r)
      → erase_rest erase_rchild l lsize p buf r index size ≡ none
  erase_rest-null index size h = elim (dec_lt index (length buf)) [
    | no past ↦
        (let j : ℕ = index - length buf in
          null_past index size j (omega arith) (
            null j size (λ k. omega (
              arith,
              length-append buf (content r),
              h (omega (arith, length-append buf (content r))),
            ))))
    | yes inside ↦
        (let m : ℕ = size - (length buf - index) in
          let over : length buf + length (content r) < index + size = omega (
            arith,
            length-append buf (content r),
            h (omega (arith, length-append buf (content r))),
          ) in
          null_across index size m inside (omega arith) (omega arith) (null 0 m (λ _. omega arith)))
  ]

node-null :
    (l : Rep) (lsize p : ℕ) (buf : List ℕ) (r : Rep)
    → IsWf (node l lsize p buf r)
    → ((index size : ℕ) → IsOutside index size (content r) → erase_rep r index size ≡ none)
    → (index size : ℕ) → IsOutside index size (content (node l lsize p buf r))
    → erase_rep (node l lsize p buf r) index size ≡ none
node-null l lsize p buf r wf right index size h = elim (dec_lt index lsize) [
  | no past ↦
      (let j : ℕ = index - lsize in
        rw (rep_past l lsize p buf r index size j (omega arith)) (
          erase_rest-null (erase_rep r) l lsize p buf r right j size
            (λ k. omega (arith, total, wf.1, h (omega (arith, total, wf.1))))))
  | yes inside ↦
      (let k : ℕ = lsize - index in
        let m : ℕ = size - k in
        let over = h (omega (arith, total, wf.1)) in
        let (l', e, wl, same) = erase_rep-Erased l wf.0 index k (omega (arith, wf.1)) in
        rw
          (rep_across l lsize p buf r index size k m l' (omega arith)
            (omega (arith, total, wf.1, over)) (omega arith) (omega (arith, total, wf.1, over)) e)
          (erase_rest-null (erase_rep r) l' index p buf r right 0 m
            (λ _. omega (arith, total, wf.1, over))))
]
  where
    total :
        length (content l ++ (buf ++ content r)) ≡ length (content l) + length (buf ++ content r)
    total = length-append (content l) (buf ++ content r)

erase_rep-null :
    (t : Rep)
    → IsWf t
    → (index size : ℕ) → IsOutside index size (content t)
    → erase_rep t index size ≡ none
erase_rep-null nil wf = λ index size h. unfold erase_rep in refl
erase_rep-null (node l lsize p buf r) wf = node-null l lsize p buf r wf (erase_rep-null r wf.3)

-- `erase` of a range that starts or ends past the end of the text, the empty range at the end among
-- them, dereferences a null pointer.
pub erase-null :
    (rope : Rope) (index size : ℕ)
    → IsValid rope
    → IsOutside index size (text rope)
    → erase rope index size ≡ none
unfolding erase
erase-null rope index size wf h = rw (erase_rep-null rope.rep wf index size h)
