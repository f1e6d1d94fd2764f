-- ===== src/Util/HashFilter.antt =====
-- util/hash-filter.h and util/hash-filter.cc: a cuckoo filter with 32 bits per entry.
-- The array of buckets is a function from indices, which are masked wherever the code makes them.
-- The random generator is a stream of numbers. Of `find_two` the version without vector instructions
-- is modelled.
pub mod Buckets
pub mod Kept
pub mod Filled
mod Tests
use trunk.Prelude.{
  ℕ, zero, suc, ◌+◌, ◌-◌, ◌/◌, ◌%◌, ◌^◌, bit_and, bit_or, Option, none, some, Bool, true, false,
  ◌||◌, ◌==◌, if◌then◌else◌,
}
use Prim.Native.Nat.{bit_xor}

pub record Bucket : Type 0 where
  pub e_0 : ℕ
  pub e_1 : ℕ
  pub e_2 : ℕ
  pub e_3 : ℕ

abbrev pub Buckets : Type 0
Buckets = ℕ → Bucket

-- The mask and the size are numbers of 32 bits, which wrap around.
pub record HashFilter : Type 0 where
  pub num_buckets_mask : ℕ
  pub buckets : Buckets
  pub size : ℕ

-- The constructor, with `clear`.
unfoldable pub clear : HashFilter → HashFilter
clear h = record h { buckets = λ i. record { e_0 = 0; e_1 = 0; e_2 = 0; e_3 = 0 }; size = 0 }

unfoldable pub new : ℕ → HashFilter
new num_buckets = clear (record {
  num_buckets_mask = (num_buckets + 2 ^ 32 - 1) % 2 ^ 32;
  buckets = λ i. record { e_0 = 0; e_1 = 0; e_2 = 0; e_3 = 0 };
  size = 0;
})

-- The entry of a fingerprint: its lower half, or its upper half made odd, as zero marks no entry.
unfoldable pub fp_32 : ℕ → ℕ
fp_32 fingerprint =
    if fingerprint % 2 ^ 32 == 0
    then bit_or (fingerprint / 2 ^ 32) 1 % 2 ^ 32
    else fingerprint % 2 ^ 32

unfoldable pub index_of : ℕ → ℕ → ℕ
index_of mask fingerprint = bit_and (fingerprint / 2 ^ 32) mask

-- The other bucket of an entry.
abbrev pub other : ℕ → ℕ → ℕ → ℕ
other mask index fp = bit_xor index (bit_and fp mask)

-- `add`, where `none` is false.
unfoldable pub add : ℕ → Bucket → Option Bucket
add fp b =
    if b.e_0 == 0
    then some (record b { e_0 = fp })
    else if b.e_1 == 0
    then some (record b { e_1 = fp })
    else if b.e_2 == 0
    then some (record b { e_2 = fp })
    else if b.e_3 == 0
    then some (record b { e_3 = fp })
    else none

unfoldable pub has_entry : Bucket → ℕ → Bool
has_entry b fp = b.e_0 == fp || (b.e_1 == fp || (b.e_2 == fp || b.e_3 == fp))

unfoldable pub find_two : Bucket → Bucket → ℕ → Bool
find_two b b' fp = has_entry b fp || has_entry b' fp

unfoldable pub test : HashFilter → ℕ → Bool
test h fingerprint =
    let fp = fp_32 fingerprint in
    let index = index_of h.num_buckets_mask fingerprint in
    find_two (h.buckets index) (h.buckets (other h.num_buckets_mask index fp)) fp

-- `entries[seed & 3]`
unfoldable pub entry_at : Bucket → ℕ → ℕ
entry_at b zero = b.e_0
entry_at b (suc zero) = b.e_1
entry_at b (suc (suc zero)) = b.e_2
entry_at b (suc (suc (suc n))) = b.e_3

unfoldable pub put_entry : Bucket → ℕ → ℕ → Bucket
put_entry b zero fp = record b { e_0 = fp }
put_entry b (suc zero) fp = record b { e_1 = fp }
put_entry b (suc (suc zero)) fp = record b { e_2 = fp }
put_entry b (suc (suc (suc n))) fp = record b { e_3 = fp }

-- The array with one bucket changed.
abbrev pub place : ℕ → Bucket → Buckets → Buckets
place i b bs j = if j == i then b else bs j

-- Where the loops end: the entry is in, or an entry is left, whose bucket is given.
pub data Outcome : Type 0 where
  added : Buckets → Outcome
  homeless : ℕ → ℕ → Buckets → Outcome

-- After `add` to a bucket: the end, or what follows.
unfoldable pub added_or : ℕ → Buckets → Outcome → Option Bucket → Outcome
added_or index bs rest none = rest
added_or index bs rest (some b) = added (place index b bs)

-- The inner loop, for so many rounds more: the entry takes another's place, which goes to its other
-- bucket.
unfoldable pub kick : ℕ → ℕ → ℕ → ℕ → ℕ → Buckets → Outcome
kick mask zero seed fp index bs = homeless fp index bs
kick mask (suc rounds) seed fp index bs =
    let entry = entry_at (bs index) (bit_and seed 3) in
    let bs' : Buckets = place index (put_entry (bs index) (bit_and seed 3) fp) bs in
    let index' = other mask index entry in
    let rest = kick mask rounds (seed / 4) entry index' bs' in
    added_or index' bs' rest (add entry (bs' index'))

-- The outer loop, for so many seeds more.
unfoldable pub kick_again : ℕ → ℕ → (ℕ → ℕ) → Outcome → Outcome
kick_again mask seeds gen (added bs) = added bs
kick_again mask zero gen (homeless fp index bs) = homeless fp index bs
kick_again mask (suc seeds) gen (homeless fp index bs) =
    kick_again mask seeds (λ i. gen (suc i)) (kick mask 32 (gen 0) fp index bs)

-- What the outcome makes of the filter. An entry that is left is lost.
unfoldable pub inserted : HashFilter → Outcome → Bool × HashFilter
inserted h (added bs) = (true, record h { buckets = bs; size = (h.size + 1) % 2 ^ 32 })
inserted h (homeless fp index bs) = (false, record h { buckets = bs })

unfoldable pub insert : (ℕ → ℕ) → ℕ → HashFilter → Bool × HashFilter
insert gen fingerprint h =
    let mask = h.num_buckets_mask in
    let fp = fp_32 fingerprint in
    let index = index_of mask fingerprint in
    let index' = other mask index fp in
    inserted h (
      added_or index h.buckets
        (added_or index' h.buckets (kick_again mask 16 gen (homeless fp index' h.buckets))
          (add fp (h.buckets index')))
        (add fp (h.buckets index)))
