-- ===== src/Io/MemoryFile/Overlay.antt =====
-- The content of a file after a write, described without growing the file first.
use trunk.Prelude.{
  ℕ, zero, suc, ◌+◌, ◌-◌, ◌≤◌, max, ◌≡◌, refl, ap, ap₂, sym, ◌∙◌, List, ◌∷◌, ◌++◌, lt→ltb,
  not_lt→ltb, take, drop, length, replicate, length-append, length-take, length-drop,
  length-replicate, take-append_ge, take-append_le, drop-append_ge, take_all, drop_all, append-nil,
  arith,
}
use trunk.Io.MemoryFile.{resize, overlay}
use native.Mathlib.Decide.{dec_lt, dec_le}

abbrev pub zeros : ℕ → List ℕ
zeros n = replicate n 0

pub length-zeros : (n : ℕ) → length (zeros n) ≡ n
length-zeros n = length-replicate n _

take-zeros : (n m : ℕ) → n ≤ m → take n (zeros m) ≡ zeros n
take-zeros zero m h = refl
take-zeros (suc n) zero h = absurd (omega arith)
take-zeros (suc n) (suc m) h = ap (λ t. 0 ∷ t) (take-zeros n m (omega arith))

-- What stands in front of the bytes written: the old bytes, and zeros where there were none.
abbrev pub front : ℕ → List ℕ → List ℕ
front position content = take position content ++ zeros (position - length content)

pub length-front : (position : ℕ) (content : List ℕ) → length (front position content) ≡ position
length-front position content = omega (
  arith,
  length-append (take position content) (zeros (position - length content)),
  length-take position content,
  length-zeros (position - length content),
)

-- Within the old bytes there are no zeros to add.
pub front_within :
    (position : ℕ) (content : List ℕ)
    → position ≤ length content
    → front position content ≡ take position content
front_within position content h =
    let e : position - length content ≡ 0 = omega arith in
    ap (λ n. take position content ++ zeros n) e ∙ append-nil (take position content)

take-resize :
    (position last : ℕ) (content : List ℕ)
    → position ≤ last
    → length content ≤ last
    → take position (resize last content) ≡ front position content
take-resize position last content h k =
    ap (λ t. take position (t ++ zeros (last - length content))) (take_all last content k)
    ∙ elim (dec_le position (length content)) [
      | yes short ↦
          take-append_le position content _ short ∙ sym (front_within position content short)
      | no long ↦
          take-append_ge position (position - length content) content _ (omega arith)
          ∙ ap₂ ◌++◌ (sym (take_all position content (omega arith)))
              (take-zeros (position - length content) (last - length content) (omega arith))
    ]

length-resize : (n : ℕ) (xs : List ℕ) → length (resize n xs) ≡ n
length-resize n xs = omega (
  arith,
  length-append (take n xs) (zeros (n - length xs)),
  length-take n xs,
  length-zeros (n - length xs),
)

-- In front of the bytes written the old bytes and zeros, behind them what reached beyond them.
pub overlay_lem :
    (position : ℕ) (buffer content : List ℕ)
    → overlay position buffer content
      ≡ front position content ++ (buffer ++ drop (position + length buffer) content)
unfolding overlay
overlay_lem position buffer content = elim (dec_lt (length content) (position + length buffer)) [
  | yes grows ↦ rw (lt→ltb (length content) (position + length buffer) grows) (
      ap₂ ◌++◌ (take-resize position _ content (omega arith) (omega arith)) (
        ap (λ t. buffer ++ t)
          (drop_all (position + length buffer) (resize (position + length buffer) content)
              (omega (arith, length-resize (position + length buffer) content))
            ∙ sym (drop_all (position + length buffer) content (omega arith)))))
  | no fits ↦ rw (not_lt→ltb (length content) (position + length buffer) (omega arith)) (
      ap (λ t. t ++ (buffer ++ drop (position + length buffer) content))
        (sym (front_within position content (omega arith))))
]

pub length-overlay :
    (position : ℕ) (buffer content : List ℕ)
    → length (overlay position buffer content) ≡ max (length content) (position + length buffer)
length-overlay position buffer content = omega (
  arith,
  ap (λ xs. length xs) (overlay_lem position buffer content),
  length-append (front position content) (buffer ++ drop (position + length buffer) content),
  length-append buffer (drop (position + length buffer) content),
  length-front position content,
  length-drop (position + length buffer) content,
)

-- The old bytes in front of a write, the bytes written, and the old bytes behind them.
pub take-overlay :
    (position : ℕ) (buffer content : List ℕ)
    → take position (overlay position buffer content) ≡ front position content
take-overlay position buffer content = rw (overlay_lem position buffer content) (
    take-append_ge position 0 (front position content) _
      (omega (arith, length-front position content))
    ∙ append-nil (front position content))

pub drop-overlay :
    (position : ℕ) (buffer content : List ℕ)
    → drop position (overlay position buffer content)
      ≡ buffer ++ drop (position + length buffer) content
drop-overlay position buffer content = rw (overlay_lem position buffer content) (
    drop-append_ge position 0 (front position content) _
      (omega (arith, length-front position content)))
