-- ===== src/Util/HashFilter/Filled.antt =====
-- Hash filters as they are used: made empty, then filled.
use trunk.Prelude.{
  ℕ, zero, suc, ◌+◌, ◌^◌, ◌%◌, ◌≤◌, ◌<◌, ◌≡◌, refl, ap, sym, ◌∙◌, subst, List, [], ◌∷◌, length, All,
  true, inl, inr, arith,
}
use native.Mathlib.Nat.{pow-suc}
use trunk.Util.HashFilter.{HashFilter, clear, new, insert, test}
use trunk.Util.HashFilter.Kept.{test-insert, inserted-true}

-- A filter of 2^k buckets after insertions that returned true, the last one first.
pub data Filled (k : ℕ) : List ℕ → HashFilter → Type 0 where
  empty : Filled k [] (new (2 ^ k))
  more :
      (gen : ℕ → ℕ) (fingerprint : ℕ) (fingerprints : List ℕ) (h h' : HashFilter)
      → Filled k fingerprints h
      → insert gen fingerprint h ≡ (true, h')
      → Filled k (fingerprint ∷ fingerprints) h'

insert-sizes :
    (gen : ℕ → ℕ) (fingerprint : ℕ) (h h' : HashFilter)
    → insert gen fingerprint h ≡ (true, h')
    → (h'.num_buckets_mask ≡ h.num_buckets_mask) × (h'.size ≡ (h.size + 1) % 2 ^ 32)
unfolding insert
insert-sizes gen fingerprint h h' is =
    let (bs, e, same) = inserted-true h h' _ is in
    (ap (λ x. x.num_buckets_mask) same, ap (λ x. x.size) same)

pow_pos : (k : ℕ) → 0 < 2 ^ k
pow_pos zero = omega arith
pow_pos (suc k) = omega (arith, pow_pos k, pow-suc 2 k)

pow_le : (k l : ℕ) → k ≤ l → 2 ^ k ≤ 2 ^ l
pow_le zero l h = pow_pos l
pow_le (suc k) zero h = absurd (omega arith)
pow_le (suc k) (suc l) h = omega (arith, pow_le k l (omega arith), pow-suc 2 k, pow-suc 2 l)

Filled-mask :
    (k : ℕ) (fs : List ℕ) (h : HashFilter) → k < 32 → Filled k fs h → h.num_buckets_mask < 2 ^ k
unfolding new clear
Filled-mask k fs h small empty = omega (arith, pow_pos k, pow_le k 32 (omega arith))
Filled-mask k fs h small (more gen f fs' h' _ filled is) =
    subst (λ m. m < 2 ^ k) (sym ((insert-sizes gen f h' h is).0))
      (Filled-mask k fs' h' small filled)

All-tests :
    (k : ℕ) (gen : ℕ → ℕ) (f : ℕ) (h h' : HashFilter) (fs : List ℕ)
    → h.num_buckets_mask < 2 ^ k
    → insert gen f h ≡ (true, h')
    → All (λ g. test h g ≡ true) fs
    → All (λ g. test h' g ≡ true) fs
All-tests k gen f h h' [] small is all = tt
All-tests k gen f h h' (g ∷ fs) small is (t, all) =
    (test-insert k gen f g h h' small is (inr t), All-tests k gen f h h' fs small is all)

-- A filter of 2^k buckets, k below 32, after insertions that all returned true, tests true for every
-- fingerprint that was inserted, and its size is their number modulo 2^32.
pub Filled-test :
    (k : ℕ) (fs : List ℕ) (h : HashFilter)
    → k < 32
    → Filled k fs h
    → All (λ f. test h f ≡ true) fs × (h.size ≡ length fs % 2 ^ 32)
unfolding new clear
Filled-test k fs h few empty = (tt, refl)
Filled-test k fs h few (more gen f fs' h' _ filled is) =
    let small = Filled-mask k fs' h' few filled in
    let (tests, size) = Filled-test k fs' h' few filled in
    (
      (test-insert k gen f f h' h small is (inl refl), All-tests k gen f h' h fs' small is tests),
      (insert-sizes gen f h' h is).1 ∙ omega (arith, size),
    )
