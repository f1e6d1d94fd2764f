-- ===== src/Util/HashFilter/Buckets.antt =====
-- Entries of a bucket, and the two buckets of an entry.
use trunk.Prelude.{
  ℕ, zero, suc, ◌/◌, ◌^◌, ◌≤◌, ◌<◌, ◌≡◌, ◌≢◌, refl, bit_and, some, true, ◌⊎◌, arith,
}
use native.Mathlib.Nat.{pow-suc}
use trunk.Prelude.Bits.{bit_and_step}
use trunk.Prelude.Xor.{bit_xor_twice, bit_xor_lt}
use trunk.Util.HashFilter.{Bucket, other, add, has_entry, entry_at, put_entry}

pub has_entry-add :
    (fp x : ℕ) (b b' : Bucket)
    → add fp b ≡ some b'
    → x ≢ 0
    → has_entry b x ≡ true
    → has_entry b' x ≡ true
unfolding add has_entry
has_entry-add fp x b b' e nz h = ground arith

pub has_entry-added : (fp : ℕ) (b b' : Bucket) → add fp b ≡ some b' → has_entry b' fp ≡ true
unfolding add has_entry
has_entry-added fp b b' e = ground arith

pub has_entry-put_entry :
    (b : Bucket) (n fp x : ℕ)
    → has_entry b x ≡ true
    → (has_entry (put_entry b n fp) x ≡ true) ⊎ (x ≡ entry_at b n)
unfolding has_entry put_entry entry_at
has_entry-put_entry b zero fp x h = ground arith
has_entry-put_entry b (suc zero) fp x h = ground arith
has_entry-put_entry b (suc (suc zero)) fp x h = ground arith
has_entry-put_entry b (suc (suc (suc n))) fp x h = ground arith

pub has_entry_put : (b : Bucket) (n fp : ℕ) → has_entry (put_entry b n fp) fp ≡ true
unfolding has_entry put_entry
has_entry_put b zero fp = ground arith
has_entry_put b (suc zero) fp = ground arith
has_entry_put b (suc (suc zero)) fp = ground arith
has_entry_put b (suc (suc (suc n))) fp = ground arith

bit_and_zero : (fuel a : ℕ) → a ≤ fuel → bit_and a 0 ≡ 0
bit_and_zero zero zero h = refl
bit_and_zero zero (suc a) h = absurd (omega arith)
bit_and_zero (suc fuel) a h =
    omega (arith, bit_and_step a 0, bit_and_zero fuel (a / 2) (omega arith))

pub bit_and_lt : (k a b : ℕ) → b < 2 ^ k → bit_and a b < 2 ^ k
bit_and_lt zero a zero h = omega (arith, bit_and_zero a a (omega arith))
bit_and_lt zero a (suc b) h = absurd (omega arith)
bit_and_lt (suc k) a b h = omega (
  arith,
  pow-suc 2 k,
  bit_and_step a b,
  bit_and_lt k (a / 2) (b / 2) (omega (arith, pow-suc 2 k)),
)

-- The other bucket's other bucket is the first, and there is one.
module _ (k mask : ℕ) (small : mask < 2 ^ k) (fp index : ℕ) (inside : index < 2 ^ k) where
  pub other_twice : other mask (other mask index fp) fp ≡ index
  other_twice = bit_xor_twice k index (bit_and fp mask) inside (bit_and_lt k fp mask small)

  pub other_lt : other mask index fp < 2 ^ k
  other_lt = bit_xor_lt k index (bit_and fp mask) inside (bit_and_lt k fp mask small)
