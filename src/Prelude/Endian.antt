-- ===== src/Prelude/Endian.antt =====
-- Numbers as they stand in memory: bytes, the lowest first.
use Prim.Native.Nat.{ℕ, zero, suc, ◌+◌, ◌*◌, ◌/◌, ◌%◌, ◌^◌, ◌<◌}
use mathlib.Core.Path.{◌≡◌, refl, ap}
use mathlib.Core.List.{List, [], ◌∷◌}
use native.Mathlib.Nat.{pow-suc}
use native.Mathlib.Omega.{arith}
use trunk.Prelude.Lists.{length, All}

abbrev pub store : ℕ → ℕ → List ℕ
store zero v = []
store (suc n) v = (v % 256) ∷ store n (v / 256)

abbrev pub load : List ℕ → ℕ
load [] = 0
load (b ∷ bs) = b + 256 * load bs

pub length-store : (n v : ℕ) → length (store n v) ≡ n
length-store zero v = refl
length-store (suc n) v = ap suc (length-store n (v / 256))

pub load-store : (n v : ℕ) → v < 256 ^ n → load (store n v) ≡ v
load-store zero v h = omega arith
load-store (suc n) v h = omega (arith, load-store n (v / 256) (omega (arith, pow-suc 256 n)))

pub store-IsByte : (n v : ℕ) → All (λ b. b < 256) (store n v)
store-IsByte zero v = tt
store-IsByte (suc n) v = (omega arith, store-IsByte n (v / 256))

pub load-lt : (bs : List ℕ) → All (λ b. b < 256) bs → load bs < 256 ^ length bs
load-lt [] all = omega arith
load-lt (b ∷ bs) (h, all) = omega (arith, load-lt bs all, pow-suc 256 (length bs))
