-- ===== src/Util/Utf/Sizes.antt =====
-- How much the conversions of util/utf.cc write, against what their callers allocate.
use trunk.Prelude.{
  ℕ, zero, suc, ◌+◌, ◌≤◌, ◌≡◌, refl, ap, ◌∙◌, List, [], ◌∷◌, some, Bool, true, false, ltb, leb,
  if◌then◌else◌, drop, length, length-append, length-drop, arith,
}
use trunk.Util.Utf.{
  size_loop, utf16_to_utf8_size, put_unit, utf16_to_utf8, width, length_loop, utf8_length,
  units_loop, utf8_to_utf16, get_unit,
}

length-put_unit :
    (c : ℕ) → length (put_unit c) ≡ (if leb c 0x7f then 1 else if leb c 0x7ff then 2 else 3)
unfolding put_unit
length-put_unit c = ground arith

size_loop-add : (input : List ℕ) (n : ℕ) → size_loop input n ≡ n + length (utf16_to_utf8 input)
unfolding size_loop utf16_to_utf8
size_loop-add [] n = omega arith
size_loop-add (c ∷ input) n = omega (
  arith,
  size_loop-add input (n + (if leb c 0x7f then 1 else if leb c 0x7ff then 2 else 3)),
  length-append (put_unit c) (utf16_to_utf8 input),
  length-put_unit c,
)

-- `utf16_to_utf8` writes just as many bytes as `utf16_to_utf8_size` returns.
pub length-utf16_to_utf8 :
    (input : List ℕ) → length (utf16_to_utf8 input) ≡ utf16_to_utf8_size input
unfolding utf16_to_utf8_size
length-utf16_to_utf8 input = omega (arith, size_loop-add input 0)

width_pos : (c : ℕ) → 1 ≤ width c
unfolding width
width_pos c = ground arith

ended :
    (b : Bool) (unit n : ℕ) (units : List ℕ)
    → (units' : List ℕ) × ((if b then some [] else some (unit ∷ units)) ≡ some units')
      × ((if b then some n else some (n + 1 + length units)) ≡ some (n + length units'))
ended true unit n units = ([], refl, ap some (omega arith))
ended false unit n units = (unit ∷ units, refl, ap some (omega arith))

-- With fuel for the bytes both loops end, with the same count.
loops_end :
    (fuel : ℕ) (input : List ℕ) (n : ℕ)
    → length input ≤ fuel
    → (units : List ℕ) × (units_loop fuel input ≡ some units)
      × (length_loop fuel input n ≡ some (n + length units))
unfolding units_loop length_loop
loops_end fuel [] n h = ([], refl, ap some (omega arith))
loops_end zero (c ∷ input) n h = absurd (omega arith)
loops_end (suc fuel) (c ∷ input) n h =
    let (units, eu, el) =
      loops_end fuel (drop (width c) (c ∷ input)) (n + 1)
        (omega (arith, width_pos c, length-drop (width c) (c ∷ input))) in
    rw (eu, el) (ended (ltb (length (c ∷ input)) (width c)) (get_unit (c ∷ input)) n units)

-- Both functions end on every list of bytes, and `utf8_to_utf16` writes just as many units as
-- `utf8_length` returns.
length-utf8_to_utf16 :
    (input : List ℕ)
    → (units : List ℕ) × (utf8_to_utf16 input ≡ some units)
      × (utf8_length input ≡ some (length units))
unfolding utf8_to_utf16 utf8_length
length-utf8_to_utf16 input =
    let (units, eu, el) = loops_end (length input) input 0 (omega arith) in
    (units, eu, el ∙ ap some (omega arith))
