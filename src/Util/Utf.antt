-- ===== src/Util/Utf.antt =====
-- util/utf.h and util/utf.cc: code units of UTF-16 to bytes of UTF-8 and back.
-- A unit is a number below 2 ^ 16 and a byte one below 256; what a function writes is a list.
pub mod Sizes
pub mod RoundTrip
mod Tests
use trunk.Prelude.{
  ℕ, zero, suc, ◌+◌, ◌*◌, ◌/◌, ◌%◌, ◌^◌, bit_and, bit_or, List, [], ◌∷◌, ◌++◌, Option, none, some,
  not, ltb, leb, ◌==◌, if◌then◌else◌, drop, length, get_elem?,
}
use trunk.Prelude.Monad.{◌>>=◌}

unfoldable pub size_loop : List ℕ → ℕ → ℕ
size_loop [] output_size = output_size
size_loop (c ∷ input) output_size =
    size_loop input (output_size + (if leb c 0x7f then 1 else if leb c 0x7ff then 2 else 3))

unfoldable pub utf16_to_utf8_size : List ℕ → ℕ
utf16_to_utf8_size input = size_loop input 0

-- `static_cast<char>`
abbrev pub to_char : ℕ → ℕ
to_char x = x % 256

-- The bytes written for one unit.
unfoldable pub put_unit : ℕ → List ℕ
put_unit c =
    if leb c 0x7f
    then to_char c ∷ []
    else if leb c 0x7ff
    then to_char (bit_or (c / 2 ^ 6) 0xc0) ∷ to_char (bit_or (bit_and c 0x3f) 0x80) ∷ []
    else to_char (bit_or (c / 2 ^ 12) 0xe0)
      ∷ to_char (bit_or (bit_and (c / 2 ^ 6) 0x3f) 0x80)
      ∷ to_char (bit_or (bit_and c 0x3f) 0x80)
      ∷ []

unfoldable pub utf16_to_utf8 : List ℕ → List ℕ
utf16_to_utf8 [] = []
utf16_to_utf8 (c ∷ input) = put_unit c ++ utf16_to_utf8 input

-- How many bytes the character takes that begins with a byte: the tests of both loops.
unfoldable pub width : ℕ → ℕ
width c =
    if not (bit_and c 0xc0 == 0xc0)
    then 1
    else if not (bit_and c 0xe0 == 0xe0)
    then 2
    else if not (bit_and c 0xf0 == 0xf0)
    then 3
    else 4

-- A character that is cut off ends the loop. `none` is fuel that ran out.
unfoldable pub length_loop : ℕ → List ℕ → ℕ → Option ℕ
length_loop fuel [] output_size = some output_size
length_loop zero (c ∷ input) output_size = none
length_loop (suc fuel) (c ∷ input) output_size =
    let more = length_loop fuel (drop (width c) (c ∷ input)) (output_size + 1) in
    if ltb (length (c ∷ input)) (width c) then some output_size else more

-- Each round takes a byte at least.
unfoldable pub utf8_length : List ℕ → Option ℕ
utf8_length input = length_loop (length input) input 0

-- `input[i]`, which is read only where the input is long enough.
abbrev pub at : List ℕ → ℕ → ℕ
at [] i = 0
at (x ∷ xs) zero = x
at (x ∷ xs) (suc i) = at xs i

-- The unit written for the character at the front; a conversion to `char16_t` keeps 16 bits.
unfoldable pub get_unit : List ℕ → ℕ
get_unit input =
    let c = at input 0 in
    if width c == 1
    then bit_and c 0x7f
    else if width c == 2
    then bit_or (bit_and c 0x3f * 2 ^ 6) (bit_and (at input 1) 0x3f) % 2 ^ 16
    else if width c == 3
    then bit_or (bit_or (bit_and c 0x1f * 2 ^ 12) (bit_and (at input 1) 0x3f * 2 ^ 6))
        (bit_and (at input 2) 0x3f)
      % 2 ^ 16
    else 0xfffd

unfoldable pub units_loop : ℕ → List ℕ → Option (List ℕ)
units_loop fuel [] = some []
units_loop zero (c ∷ input) = none
units_loop (suc fuel) (c ∷ input) =
    let more = units_loop fuel (drop (width c) (c ∷ input)) in
    if ltb (length (c ∷ input)) (width c)
    then some []
    else do units ← more; some (get_unit (c ∷ input) ∷ units)

unfoldable pub utf8_to_utf16 : List ℕ → Option (List ℕ)
utf8_to_utf16 input = units_loop (length input) input
