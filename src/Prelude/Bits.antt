-- ===== src/Prelude/Bits.antt =====
-- Masks, and ors of disjoint bit ranges, as arithmetic.
use Prim.Native.Nat.{ℕ, zero, suc, ◌+◌, ◌*◌, ◌/◌, ◌%◌, ◌^◌, ◌≤◌, ◌<◌, min, max, bit_and, bit_or}
use Prim.Native.Nat.{digits, bit_and-bitwise, bit_or-bitwise}
use mathlib.Core.Path.{◌≡◌, refl, ap}
use mathlib.Core.Bool.{Bool, true, ◌&&◌}
use native.Mathlib.Nat.{pow-suc}
use native.Mathlib.Omega.{arith}
use trunk.Prelude.Tests.{◌==◌, ==_iff}

-- A test at every value below a bound, by evaluation.
unfoldable pub all_below : ℕ → (ℕ → Bool) → Bool
all_below zero test = true
all_below (suc bound) test = test bound && all_below bound test

pub all_below_sound :
    (bound : ℕ) (test : ℕ → Bool) (i : ℕ) → i < bound → all_below bound test ≡ true → test i ≡ true
unfolding all_below
all_below_sound zero test i lt passed = absurd (omega arith)
all_below_sound (suc bound) test i lt passed = ground (arith, all_below_sound bound test i)

-- Two functions that agree on every value below `n`, by evaluation.
pub agree : (n : ℕ) (f g : ℕ → ℕ) (x : ℕ) → all_below n (λ i. f i == g i) ≡ true → x < n → f x ≡ g x
agree n f g x h lt = (==_iff _ _).0 (all_below_sound n (λ i. f i == g i) x lt h)

-- The native operations stand for recursions on a count of binary digits; any count that is large
-- enough gives the same number.
pub digits_count :
    (low : ℕ → ℕ) (join : ℕ → ℕ → ℕ) (x y k l : ℕ)
    → x ≤ k
    → x ≤ l
    → digits low join k x y ≡ digits low join l x y
digits_count low join zero y zero zero hk hl = refl
digits_count low join zero y zero (suc l) hk hl = refl
digits_count low join zero y (suc k) zero hk hl = refl
digits_count low join zero y (suc k) (suc l) hk hl = refl
digits_count low join (suc x) y zero l hk hl = absurd (omega arith)
digits_count low join (suc x) y (suc k) zero hk hl = absurd (omega arith)
digits_count low join (suc x) y (suc k) (suc l) hk hl =
    ap (λ t. t * 2 + join (suc x % 2) (y % 2))
      (digits_count low join (suc x / 2) (y / 2) k l (omega arith) (omega arith))

-- The law of the lowest digit.
pub bit_and_step : (x y : ℕ) → bit_and x y ≡ bit_and (x / 2) (y / 2) * 2 + min (x % 2) (y % 2)
bit_and_step zero y = omega (arith, bit_and-bitwise 0 y, bit_and-bitwise 0 (y / 2))
bit_and_step (suc x) y = omega (
  arith,
  digits_count (λ _. 0) min (suc x / 2) (y / 2) x (suc x / 2) (omega arith) (omega arith),
  bit_and-bitwise (suc x / 2) (y / 2),
  bit_and-bitwise (suc x) y,
)

pub zero-bit_or : (b : ℕ) → bit_or 0 b ≡ b
zero-bit_or b = bit_or-bitwise 0 b

pub bit_or_step : (a b : ℕ) → bit_or a b ≡ bit_or (a / 2) (b / 2) * 2 + max (a % 2) (b % 2)
bit_or_step zero b = omega (arith, zero-bit_or b, zero-bit_or (b / 2))
bit_or_step (suc a) b = omega (
  arith,
  bit_or-bitwise (suc a) b,
  bit_or-bitwise (suc a / 2) (b / 2),
  digits_count (λ y. y) max (suc a / 2) (b / 2) a (suc a / 2) (omega arith) (omega arith),
)

-- Below bit `k` there is nothing to carry: the or is a sum.
pub bit_or-add : (k a b : ℕ) → a < 2 ^ k → bit_or a (b * 2 ^ k) ≡ a + b * 2 ^ k
bit_or-add zero a b h = let e : a ≡ 0 = omega arith in rw (e, zero-bit_or) (omega arith)
bit_or-add (suc k) a b h = omega (
  arith,
  double,
  bit_or_step a (b * 2 ^ suc k),
  ap (bit_or (a / 2)) halve,
  bit_or-add k (a / 2) b (omega (arith, pow-suc 2 k)),
)
  where
    double : b * 2 ^ suc k ≡ b * 2 ^ k * 2
    double = omega (arith, ap (λ (t : ℕ). b * t) (pow-suc 2 k))

    halve : b * 2 ^ suc k / 2 ≡ b * 2 ^ k
    halve = omega (arith, ap (λ (t : ℕ). b * t) (pow-suc 2 k))

bit_or-zero_below : (n a : ℕ) → a ≤ n → bit_or a 0 ≡ a
bit_or-zero_below n zero h = refl
bit_or-zero_below zero (suc a) h = absurd (omega arith)
bit_or-zero_below (suc n) (suc a) h =
    omega (arith, bit_or_step (suc a) 0, bit_or-zero_below n (suc a / 2) (omega arith))

bit_and-zero_below : (n a : ℕ) → a ≤ n → bit_and a 0 ≡ 0
bit_and-zero_below n zero h = refl
bit_and-zero_below zero (suc a) h = absurd (omega arith)
bit_and-zero_below (suc n) (suc a) h =
    omega (arith, bit_and_step (suc a) 0, bit_and-zero_below n (suc a / 2) (omega arith))

-- A mask of ones takes a step for each.
bit_and-0x1 : (a : ℕ) → bit_and a 0x1 ≡ a % 2
bit_and-0x1 a = omega (arith, bit_and_step a 1, bit_and-zero_below (a / 2) (a / 2) (omega arith))

bit_and-0x7 : (a : ℕ) → bit_and a 0x7 ≡ a % 8
bit_and-0x7 a = omega (arith, bit_and_step a 7, bit_and_step (a / 2) 3, bit_and-0x1 (a / 2 / 2))

pub bit_and-0x1f : (a : ℕ) → bit_and a 0x1f ≡ a % 32
bit_and-0x1f a = omega (arith, bit_and_step a 31, bit_and_step (a / 2) 15, bit_and-0x7 (a / 2 / 2))

pub bit_and-0x3f : (a : ℕ) → bit_and a 0x3f ≡ a % 64
bit_and-0x3f a = omega (arith, bit_and_step a 63, bit_and-0x1f (a / 2))

pub bit_and-0x7f : (a : ℕ) → bit_and a 0x7f ≡ a % 128
bit_and-0x7f a = omega (arith, bit_and_step a 127, bit_and-0x3f (a / 2))

bit_and-0x3ff : (a : ℕ) → bit_and a 0x3ff ≡ a % 1024
bit_and-0x3ff a = omega (
  arith,
  bit_and_step a 0x3ff,
  bit_and_step (a / 2) 0x1ff,
  bit_and_step (a / 2 / 2) 0xff,
  bit_and-0x7f (a / 2 / 2 / 2),
)

bit_and-0x1fff : (a : ℕ) → bit_and a 0x1fff ≡ a % 8192
bit_and-0x1fff a = omega (
  arith,
  bit_and_step a 0x1fff,
  bit_and_step (a / 2) 0xfff,
  bit_and_step (a / 2 / 2) 0x7ff,
  bit_and-0x3ff (a / 2 / 2 / 2),
)

pub bit_and-0xffff : (a : ℕ) → bit_and a 0xffff ≡ a % 65536
bit_and-0xffff a = omega (
  arith,
  bit_and_step a 0xffff,
  bit_and_step (a / 2) 0x7fff,
  bit_and_step (a / 2 / 2) 0x3fff,
  bit_and-0x1fff (a / 2 / 2 / 2),
)

-- The same with the high part in front.
pub add-bit_or : (k a b : ℕ) → a < 2 ^ k → bit_or (b * 2 ^ k) a ≡ b * 2 ^ k + a
add-bit_or zero a b h =
    omega
      (arith, bit_or-zero_below (b * 2 ^ 0) (b * 2 ^ 0) (omega arith), ap (bit_or (b * 2 ^ 0)) e)
  where
    e : a ≡ 0
    e = omega arith
add-bit_or (suc k) a b h = omega (
  arith,
  double,
  bit_or_step (b * 2 ^ suc k) a,
  ap (λ t. bit_or t (a / 2)) halve,
  add-bit_or k (a / 2) b (omega (arith, pow-suc 2 k)),
)
  where
    double : b * 2 ^ suc k ≡ b * 2 ^ k * 2
    double = omega (arith, ap (λ (t : ℕ). b * t) (pow-suc 2 k))

    halve : b * 2 ^ suc k / 2 ≡ b * 2 ^ k
    halve = omega (arith, ap (λ (t : ℕ). b * t) (pow-suc 2 k))
