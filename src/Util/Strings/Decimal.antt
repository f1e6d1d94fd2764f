-- ===== src/Util/Strings/Decimal.antt =====
-- What `consume_int` makes of a number in decimal digits.
use trunk.Prelude.{
  ℕ, zero, suc, ◌+◌, ◌-◌, ◌*◌, ◌%◌, ◌^◌, ◌≤◌, ◌<◌, ◌≡◌, ap, ◌∙◌, List, [], ◌∷◌, ◌++◌, some, true,
  false, ◌==◌, if◌then◌else◌, length, All, arith,
}
use native.Mathlib.Nat.{pow-suc, mod-eq_of_lt}
use trunk.Util.Strings.{IntType, is_digit, overflows, consume_loop, negated, consume_int}

-- The number that digits stand for, by their places.
abbrev pub number : List ℕ → ℕ
number [] = 0
number (c ∷ cs) = (c - 48) * 10 ^ length cs + number cs

-- A text that does not begin with a digit.
abbrev pub NoDigit : List ℕ → Type 0
NoDigit [] = Unit
NoDigit (c ∷ cs) = is_digit c ≡ false

-- The values of a type that are not negative lie below this bound.
abbrev pub limit : IntType → ℕ
limit t = if t.is_signed then 2 ^ (t.bits - 1) else 2 ^ t.bits

pow_pos : (n : ℕ) → 0 < 10 ^ n
pow_pos zero = omega arith
pow_pos (suc n) = omega (arith, pow_pos n, pow-suc 10 n)

shift_in : (acc d n m : ℕ) → (acc * 10 + d) * 10 ^ n + m ≡ acc * 10 ^ suc n + (d * 10 ^ n + m)
shift_in acc d n m = omega (arith, ap (λ (t : ℕ). acc * t) (pow-suc 10 n))

fits : (x n m : ℕ) → x ≤ x * 10 ^ n + m
fits x zero m = omega arith
fits x (suc n) m = omega (arith, fits x n m, ap (λ (t : ℕ). x * t) (pow-suc 10 n))

half : (b : ℕ) → 2 ^ (b - 1) ≤ 2 ^ b
half zero = omega arith
half (suc b) = omega (arith, pow-suc 2 b, ap (λ (t : ℕ). 2 ^ t) e)
  where
    e : suc b - 1 ≡ b
    e = omega arith

limit_bits : (t : IntType) → limit t ≤ 2 ^ t.bits
limit_bits t = ground (arith, half t.bits)

in_range : (t : IntType) (x : ℕ) → x < limit t → (overflows t x ≡ false) × (x % 2 ^ t.bits ≡ x)
unfolding overflows
in_range t x h = (ground arith, mod-eq_of_lt (omega (arith, limit_bits t)))

consume_loop-digits :
    (t : IntType) (digits rest : List ℕ) (result : ℕ)
    → All (λ c. is_digit c ≡ true) digits
    → NoDigit rest
    → result * 10 ^ length digits + number digits < limit t
    → consume_loop t (digits ++ rest) result
      ≡ some (result * 10 ^ length digits + number digits, rest)
unfolding consume_loop
consume_loop-digits t [] [] result all nd h = ap (λ k. some (k, [])) (omega arith)
consume_loop-digits t [] (c ∷ rest) result all nd h =
    rw nd (ap (λ k. some (k, c ∷ rest)) (omega arith))
consume_loop-digits t (c ∷ digits) rest result (d, all) nd h =
    let x : ℕ = result * 10 + (c - 48) in
    let e = shift_in result (c - 48) (length digits) (number digits) in
    let (defined, same) = in_range t x (omega (arith, e, fits x (length digits) (number digits))) in
    rw (d, defined, same)
      (consume_loop-digits t digits rest x all nd (omega (arith, e)) ∙ ap (λ k. some (k, rest)) e)

from_zero :
    (t : IntType) (digits rest : List ℕ)
    → All (λ c. is_digit c ≡ true) digits
    → NoDigit rest
    → number digits < limit t
    → consume_loop t (digits ++ rest) 0 ≡ some (number digits, rest)
from_zero t digits rest all nd h =
    consume_loop-digits t digits rest 0 all nd (omega arith)
    ∙ ap (λ k. some (k, rest)) (omega arith)

not_minus : (c : ℕ) → is_digit c ≡ true → (c == 45) ≡ false
unfolding is_digit
not_minus c h = ground arith

-- Decimal digits, one at least, that stand for a value of the type: `consume_int` returns that
-- value, and leaves the text behind the last digit.
pub consume_int-digits :
    (t : IntType) (digits rest : List ℕ)
    → All (λ c. is_digit c ≡ true) digits
    → NoDigit rest
    → 0 < length digits
    → number digits < limit t
    → consume_int t (digits ++ rest) ≡ some (number digits, rest)
unfolding consume_int
consume_int-digits t [] rest all nd some_digit h = absurd (omega arith)
consume_int-digits t (c ∷ digits) rest (d, all) nd some_digit h =
    rw (not_minus c d) (from_zero t (c ∷ digits) rest (d, all) nd h)

-- Behind a minus sign, `consume_int` returns the bit pattern of the value's negation, and leaves the
-- text behind the last digit.
pub consume_int-minus :
    (t : IntType) (digits rest : List ℕ)
    → All (λ c. is_digit c ≡ true) digits
    → NoDigit rest
    → number digits < limit t
    → consume_int t (45 ∷ digits ++ rest) ≡ some ((2 ^ t.bits - number digits) % 2 ^ t.bits, rest)
unfolding consume_int negated
consume_int-minus t digits rest all nd h = rw (from_zero t digits rest all nd h)
