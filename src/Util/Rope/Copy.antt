-- ===== src/Util/Rope/Copy.antt =====
-- `Rope::copy`: the bytes that it writes to `dest`, and where it dereferences a null pointer.
use trunk.Prelude.{
  ℕ, ◌+◌, ◌-◌, ◌≤◌, ◌<◌, min, ◌≡◌, ap, ◌∙◌, sym, List, ◌++◌, Option, none, some, ltb, leb, ◌&&◌,
  if◌then◌else◌, take, drop, length, length-append, length-drop, take_all, take-append_le,
  take-append_ge, drop-append_le, drop-append_ge, arith,
}
use trunk.Prelude.Monad.{◌>>=◌}
use trunk.Util.Rope.{Rep, nil, node, copy_rest, copy_rep, Rope, copy}
use trunk.Util.Rope.Content.{content, IsWf, text, IsValid}
use native.Mathlib.Decide.{dec_lt, dec_le}

-- The window of a text: all of it is there, and it starts before the end.
pub window : List ℕ → ℕ → ℕ → Option (List ℕ)
window xs index size =
    if ltb index (length xs) && leb (index + size) (length xs)
    then some (take size (drop index xs))
    else none

module _ (xs ys : List ℕ) where
  window_past :
      (index size j : ℕ) → index ≡ length xs + j → window (xs ++ ys) index size ≡ window ys j size
  unfolding window
  window_past index size j h =
      ground (arith, length-append xs ys, ap (take size) (drop-append_ge index j xs ys h))

  window_within :
      (index size : ℕ)
      → index < length xs
      → index + size ≤ length xs
      → window (xs ++ ys) index size ≡ some (take size (drop index xs))
  unfolding window
  window_within index size h k = ground (
    arith,
    length-append xs ys,
    ap (take size) (drop-append_le index xs ys (omega arith)),
    take-append_le size (drop index xs) ys (omega (arith, length-drop index xs)),
  )

  window_across :
      (index size k m : ℕ)
      → index + k ≡ length xs
      → size ≡ k + m
      → 0 < k
      → 0 < m
      → window (xs ++ ys) index size
        ≡ (window ys 0 m >>= λ more. some (take k (drop index xs) ++ more))
  unfolding window
  window_across index size k m hk hm pk pm = ground (arith, length-append xs ys, same)
    where
      same : take size (drop index (xs ++ ys)) ≡ take k (drop index xs) ++ take m ys
      same =
          ap (take size) (drop-append_le index xs ys (omega arith))
          ∙ take-append_ge size m (drop index xs) ys (omega (arith, length-drop index xs))
          ∙ ap (λ t. t ++ take m ys)
              (sym (take_all k (drop index xs) (omega (arith, length-drop index xs))))

window_inside :
    (xs : List ℕ) (index size : ℕ)
    → index < length xs
    → index + size ≤ length xs
    → window xs index size ≡ some (take size (drop index xs))
unfolding window
window_inside xs index size h k = ground arith

-- The buffer and the right child.
copy_rest-window :
    (copy_rchild : ℕ → ℕ → Option (List ℕ)) (buf right : List ℕ)
    → ((index size : ℕ) → copy_rchild index size ≡ window right index size)
    → (index size : ℕ) → copy_rest copy_rchild buf index size ≡ window (buf ++ right) index size
unfolding copy_rest
copy_rest-window copy_rchild buf right child index size = elim (dec_lt index (length buf)) [
  | no past ↦
      (let j : ℕ = index - length buf in
        rw (window_past buf right index size j (omega arith)) (ground (arith, child j size)))
  | yes inside ↦ elim (dec_le (index + size) (length buf)) [
    | yes within ↦
        (let e : min size (length buf - index) ≡ size = omega arith in
          rw (window_within buf right index size inside within, e) (ground arith))
    | no across ↦
        (let k : ℕ = length buf - index in
          let m : ℕ = size - k in
          let e : min size k ≡ k = omega arith in
          rw
            (
              window_across buf right index size k m (omega arith) (omega arith) (omega arith)
                  (omega arith),
              e,
            )
            (ground (arith, child 0 m)))
  ]
]

module _ (l : Rep) (lsize p : ℕ) (buf : List ℕ) (r : Rep) where
  copy_past :
      (index size j : ℕ)
      → index ≡ lsize + j
      → copy_rep (node l lsize p buf r) index size ≡ copy_rest (copy_rep r) buf j size
  unfolding copy_rep
  copy_past index size j hj = let e : index - lsize ≡ j = omega arith in rw e (ground arith)

  copy_within :
      (index size : ℕ) (got : List ℕ)
      → index < lsize
      → index + size ≤ lsize
      → copy_rep l index size ≡ some got
      → copy_rep (node l lsize p buf r) index size ≡ some got
  unfolding copy_rep
  copy_within index size got h k e =
      let e1 : min size (lsize - index) ≡ size = omega arith in rw e1 (ground arith)

  copy_across :
      (index size k m : ℕ) (got : List ℕ)
      → index + k ≡ lsize
      → size ≡ k + m
      → 0 < k
      → 0 < m
      → copy_rep l index k ≡ some got
      → copy_rep (node l lsize p buf r) index size
        ≡ (copy_rest (copy_rep r) buf 0 m >>= λ more. some (got ++ more))
  unfolding copy_rep
  copy_across index size k m got hk hm pk pm e =
      let e1 : min size (lsize - index) ≡ k = omega arith in
      let e2 : size - k ≡ m = omega arith in rw (e1, e2) (ground arith)

Windows : Rep → Type 0
Windows t = (index size : ℕ) → copy_rep t index size ≡ window (content t) index size

node-window :
    (l : Rep) (lsize p : ℕ) (buf : List ℕ) (r : Rep)
    → lsize ≡ length (content l)
    → Windows l
    → Windows r
    → Windows (node l lsize p buf r)
unfolding Windows
node-window l lsize p buf r wf left right index size = elim (dec_lt index lsize) [
  | no past ↦
      (let j : ℕ = index - lsize in
        copy_past l lsize p buf r index size j (omega arith)
        ∙ copy_rest-window (copy_rep r) buf (content r) right j size
        ∙ sym (window_past (content l) (buf ++ content r) index size j (omega arith)))
  | yes inside ↦ elim (dec_le (index + size) lsize) [
    | yes within ↦
        copy_within l lsize p buf r index size _ inside within
          (left index size ∙ window_inside (content l) index size (omega arith) (omega arith))
        ∙ sym (window_within (content l) (buf ++ content r) index size (omega arith) (omega arith))
    | no across ↦
        (let k : ℕ = lsize - index in
          let m : ℕ = size - k in
          copy_across l lsize p buf r index size k m _ (omega arith) (omega arith) (omega arith)
            (omega arith)
            (left index k ∙ window_inside (content l) index k (omega arith) (omega arith))
          ∙ ap (λ o. o >>= λ more. some (take k (drop index (content l)) ++ more))
              (copy_rest-window (copy_rep r) buf (content r) right 0 m)
          ∙ sym (
              window_across (content l) (buf ++ content r) index size k m (omega arith)
                (omega arith) (omega arith) (omega arith)))
  ]
]

copy_rep-window : (t : Rep) → IsWf t → Windows t
unfolding Windows window
copy_rep-window nil wf = λ index size. unfold copy_rep in ground arith
copy_rep-window (node l lsize p buf r) wf =
    node-window l lsize p buf r wf.1 (copy_rep-window l wf.0) (copy_rep-window r wf.3)

-- `copy` on a well-formed rope, for every range: where the range starts before the end of the text
-- and lies inside it, the bytes of the text in that range; anywhere else, a null pointer
-- dereferenced.
pub copy_lem :
    (rope : Rope) (index size : ℕ)
    → IsValid rope
    → copy rope index size ≡ (
        if ltb index (length (text rope)) && leb (index + size) (length (text rope))
        then some (take size (drop index (text rope)))
        else none)
unfolding copy Windows window
copy_lem rope index size wf = copy_rep-window rope.rep wf index size
