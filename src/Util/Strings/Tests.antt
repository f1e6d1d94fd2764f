-- ===== src/Util/Strings/Tests.antt =====
-- Numbers of one byte, and an overflow.
use trunk.Prelude.{◌≡◌, refl, [], ◌∷◌, none, some, true}
use trunk.Util.Strings.{IntType, is_digit, overflows, consume_loop, consume_int}

abbrev int8 : IntType
int8 = record { bits = 8; is_signed = true }

abbrev int32 : IntType
int32 = record { bits = 32; is_signed = true }

-- "300" is cut to eight bits.
cut_300 : consume_int int8 (51 ∷ 48 ∷ 48 ∷ []) ≡ some (44, [])
unfolding consume_int consume_loop is_digit overflows
cut_300 = refl

-- "2147483648"
overflow : consume_int int32 (50 ∷ 49 ∷ 52 ∷ 55 ∷ 52 ∷ 56 ∷ 51 ∷ 54 ∷ 52 ∷ 56 ∷ []) ≡ none
unfolding consume_int consume_loop is_digit overflows
overflow = refl
