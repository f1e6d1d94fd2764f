-- ===== src/Prelude/Xor.antt =====
-- Exclusive or: what it does to the lowest digit, and that it undoes itself.
use Prim.Native.Nat.{ℕ, zero, suc, ◌+◌, ◌*◌, ◌/◌, ◌%◌, ◌^◌, ◌<◌, bit_xor, differ}
use Prim.Native.Nat.{bit_xor-bitwise}
use mathlib.Core.Path.{◌≡◌, refl, ap, ◌∙◌}
use native.Mathlib.Nat.{pow-suc}
use native.Mathlib.Omega.{arith}
use trunk.Prelude.Bits.{digits_count}

pub zero-bit_xor : (b : ℕ) → bit_xor 0 b ≡ b
zero-bit_xor b = bit_xor-bitwise 0 b

differ_small : (p q : ℕ) → p < 2 → q < 2 → differ p q ≡ (p + q) % 2
differ_small zero zero hp hq = refl
differ_small zero (suc zero) hp hq = refl
differ_small zero (suc (suc q)) hp hq = absurd (omega arith)
differ_small (suc zero) zero hp hq = refl
differ_small (suc zero) (suc zero) hp hq = refl
differ_small (suc zero) (suc (suc q)) hp hq = absurd (omega arith)
differ_small (suc (suc p)) q hp hq = absurd (omega arith)

differ_digits : (x y : ℕ) → differ (x % 2) (y % 2) ≡ (x + y) % 2
differ_digits x y = differ_small (x % 2) (y % 2) (omega arith) (omega arith) ∙ omega arith

-- What the exclusive or does to the lowest digit.
pub bit_xor_step : (a b : ℕ) → bit_xor a b ≡ bit_xor (a / 2) (b / 2) * 2 + (a + b) % 2
bit_xor_step zero b = omega (arith, zero-bit_xor b, zero-bit_xor (b / 2))
bit_xor_step (suc a) b = omega (
  arith,
  bit_xor-bitwise (suc a) b,
  bit_xor-bitwise (suc a / 2) (b / 2),
  digits_count (λ y. y) differ (suc a / 2) (b / 2) a (suc a / 2) (omega arith) (omega arith),
  differ_digits (suc a) b,
)

pub bit_xor_lt : (k a b : ℕ) → a < 2 ^ k → b < 2 ^ k → bit_xor a b < 2 ^ k
bit_xor_lt zero a b ha hb = let e : a ≡ 0 = omega arith in rw (e, zero-bit_xor) (omega arith)
bit_xor_lt (suc k) a b ha hb = omega (
  arith,
  pow-suc 2 k,
  bit_xor_step a b,
  bit_xor_lt k (a / 2) (b / 2) (omega (arith, pow-suc 2 k)) (omega (arith, pow-suc 2 k)),
)

-- It undoes itself.
pub bit_xor_twice : (k a b : ℕ) → a < 2 ^ k → b < 2 ^ k → bit_xor (bit_xor a b) b ≡ a
bit_xor_twice zero a b ha hb =
    let ea : a ≡ 0 = omega arith in let eb : b ≡ 0 = omega arith in rw (ea, eb) refl
bit_xor_twice (suc k) a b ha hb =
    let s : ℕ = bit_xor a b in
    let half : s / 2 ≡ bit_xor (a / 2) (b / 2) = omega (arith, bit_xor_step a b) in
    let again : bit_xor (bit_xor (a / 2) (b / 2)) (b / 2) ≡ a / 2 =
      bit_xor_twice k (a / 2) (b / 2) (omega (arith, pow-suc 2 k)) (omega (arith, pow-suc 2 k)) in
    let first : bit_xor (s / 2) (b / 2) ≡ a / 2 = ap (λ t. bit_xor t (b / 2)) half ∙ again in
    omega (arith, bit_xor_step s b, first, bit_xor_step a b)
