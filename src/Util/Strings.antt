-- ===== src/Util/Strings.antt =====
-- util/strings.h and util/strings.cc: an integer consumed from the front of a text.
-- A character is its code, and a value of a type of integers its bit pattern.
pub mod Decimal
mod Tests
use trunk.Prelude.{
  ℕ, ◌+◌, ◌-◌, ◌*◌, ◌%◌, ◌^◌, List, [], ◌∷◌, Option, none, some, Bool, true, ◌&&◌, leb, ◌==◌,
  if◌then◌else◌,
}
use trunk.Prelude.Monad.{◌>>=◌}

pub record IntType : Type 0 where
  pub bits : ℕ
  pub is_signed : Bool

unfoldable pub is_digit : ℕ → Bool
is_digit c = leb 48 c && leb c 57

-- Signed arithmetic of 32 bits or more is undefined out of range; narrower types are computed as
-- an `int` and cut.
unfoldable pub overflows : IntType → ℕ → Bool
overflows t x = t.is_signed && (leb 32 t.bits && leb (2 ^ (t.bits - 1)) x)

-- The loop over the digits: the result and the text behind them; `none` is an overflow.
unfoldable pub consume_loop : IntType → List ℕ → ℕ → Option (ℕ × List ℕ)
consume_loop t [] result = some (result, [])
consume_loop t (c ∷ input) result =
    let result' = result * 10 + (c - 48) in
    let more = consume_loop t input (result' % 2 ^ t.bits) in
    if is_digit c then if overflows t result' then none else more else some (result, c ∷ input)

unfoldable pub negated : IntType → ℕ × List ℕ → ℕ × List ℕ
negated t (result, input) = ((2 ^ t.bits - result) % 2 ^ t.bits, input)

unfoldable pub consume_int : IntType → List ℕ → Option (ℕ × List ℕ)
consume_int t [] = consume_loop t [] 0
consume_int t (c ∷ input) =
    if c == 45
    then (do r ← consume_loop t input 0; some (negated t r))
    else consume_loop t (c ∷ input) 0
