-- ===== src/Util/Utf/Tests.antt =====
-- Strings that reach every branch of the two conversions.
use trunk.Prelude.{ℕ, ◌≡◌, refl, List, [], ◌∷◌, some, length, arith}
use trunk.Util.Utf.{
  utf16_to_utf8_size, put_unit, utf16_to_utf8, utf8_to_utf16, units_loop, width, get_unit,
}
use trunk.Util.Utf.Sizes.{length-utf16_to_utf8}
use trunk.Util.Utf.RoundTrip.{utf8_to_utf16-utf16_to_utf8}

-- "a", "é", the euro sign and a lone surrogate.
abbrev units : List ℕ
units = 0x61 ∷ 0xe9 ∷ 0x20ac ∷ 0xd83d ∷ []

abbrev bytes : List ℕ
bytes = 0x61 ∷ 0xc3 ∷ 0xa9 ∷ 0xe2 ∷ 0x82 ∷ 0xac ∷ 0xed ∷ 0xa0 ∷ 0xbd ∷ []

written : utf16_to_utf8 units ≡ bytes
unfolding utf16_to_utf8 put_unit
written = refl

-- A character of four bytes becomes one replacement character.
replaced : utf8_to_utf16 (0xf0 ∷ 0x9f ∷ 0x98 ∷ 0x80 ∷ 0x61 ∷ []) ≡ some (0xfffd ∷ 0x61 ∷ [])
unfolding utf8_to_utf16 units_loop width get_unit
replaced = refl

utf8_to_utf16-utf16_to_utf8_example : utf8_to_utf16 (utf16_to_utf8 units) ≡ some units
utf8_to_utf16-utf16_to_utf8_example =
    utf8_to_utf16-utf16_to_utf8 units (omega arith, (omega arith, (omega arith, (omega arith, tt))))

length-utf16_to_utf8_example : length (utf16_to_utf8 units) ≡ utf16_to_utf8_size units
length-utf16_to_utf8_example = length-utf16_to_utf8 units
