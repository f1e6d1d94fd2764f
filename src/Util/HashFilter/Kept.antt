-- ===== src/Util/HashFilter/Kept.antt =====
-- No entry of a hash filter is lost while its insertions succeed.
use trunk.Prelude.{
  ℕ, zero, suc, ◌+◌, ◌/◌, ◌%◌, ◌^◌, ◌<◌, ◌≡◌, ◌≢◌, refl, ap, sym, ◌∙◌, subst, bit_and, bit_or,
  Option, none, some, Bool, true, ◌||◌, ◌==◌, ==_iff, ◌↔◌, Bool-cases, if_true, if_false, ◌⊎◌, inl,
  inr, arith,
}
use trunk.Prelude.Bits.{bit_or_step}
use trunk.Util.HashFilter.{
  Bucket, Buckets, HashFilter, Outcome, added, homeless, fp_32, index_of, other, add, has_entry,
  find_two, test, entry_at, put_entry, place, added_or, kick, kick_again, inserted, insert,
}
use trunk.Util.HashFilter.Buckets.{
  has_entry-add, has_entry-added, has_entry-put_entry, has_entry_put, other_twice, bit_and_lt,
}

-- A bucket of an entry whose first bucket is given.
abbrev pub IsHome : ℕ → ℕ → ℕ → ℕ → Type 0
IsHome mask x i j = (j ≡ i) ⊎ (j ≡ other mask i x)

-- One of its buckets has the entry.
abbrev pub Found : ℕ → Buckets → ℕ → ℕ → Type 0
Found mask bs x i = (j : ℕ) × IsHome mask x i j × (has_entry (bs j) x ≡ true)

-- Or it is the entry that is left.
abbrev pub Kept : ℕ → ℕ → ℕ → Buckets → ℕ → ℕ → Type 0
Kept mask fp index bs x i = Found mask bs x i ⊎ ((x ≡ fp) × IsHome mask x i index)

-- What an outcome keeps.
abbrev pub KeptBy : ℕ → ℕ → ℕ → Outcome → Type 0
KeptBy mask x i (added bs) = Found mask bs x i
KeptBy mask x i (homeless fp index bs) = Kept mask fp index bs x i

has_entry-place :
    (index j x : ℕ) (b : Bucket) (bs : Buckets)
    → (has_entry (bs index) x ≡ true → has_entry b x ≡ true)
    → has_entry (bs j) x ≡ true
    → has_entry (place index b bs j) x ≡ true
has_entry-place index j x b bs keep h = elim (Bool-cases (j == index)) [
  | inl e ↦
      let at : j ≡ index = (==_iff j index).0 e in
      subst (λ c. has_entry c x ≡ true) (sym (if_true (j == index) b (bs j) e))
        (keep (subst (λ n. has_entry (bs n) x ≡ true) at h))
  | inr e ↦ subst (λ c. has_entry c x ≡ true) (sym (if_false (j == index) b (bs j) e)) h
]

place_here : (index : ℕ) (b : Bucket) (bs : Buckets) → place index b bs index ≡ b
place_here index b bs = if_true (index == index) b (bs index) (ground arith)

module _ (k mask : ℕ) (small : mask < 2 ^ k) (x i : ℕ) (nonzero : x ≢ 0)
    (first_lt : i < 2 ^ k) where
  IsHome-other : (j : ℕ) → IsHome mask x i j → IsHome mask x i (other mask j x)
  IsHome-other j (inl e) = inr (ap (λ n. other mask n x) e)
  IsHome-other j (inr e) = inl (ap (λ n. other mask n x) e ∙ other_twice k mask small x i first_lt)

  -- The entry changes places with another.
  kicked :
      (n fp index : ℕ) (bs : Buckets)
      → let entry = entry_at (bs index) n in
        Kept mask fp index bs x i
        → Kept mask entry (other mask index entry) (place index (put_entry (bs index) n fp) bs) x i
  kicked n fp index bs (inl (j, home, has)) = elim (Bool-cases (j == index)) [
    | inr e ↦ inl (
      j,
      home,
      subst (λ c. has_entry c x ≡ true)
          (sym (if_false (j == index) (put_entry (bs index) n fp) (bs j) e)) has,
    )
    | inl e ↦
        let at : j ≡ index = (==_iff j index).0 e in
        let here : has_entry (bs index) x ≡ true = subst (λ m. has_entry (bs m) x ≡ true) at has in
        elim (has_entry-put_entry (bs index) n fp x here) [
          | inl stays ↦ inl (
            j,
            home,
            subst (λ c. has_entry c x ≡ true)
                (sym (if_true (j == index) (put_entry (bs index) n fp) (bs j) e)) stays,
          )
          | inr goes ↦ inr (
            goes,
            subst (λ m. IsHome mask x i (other mask m (entry_at (bs index) n))) at
                (subst (λ y. IsHome mask x i (other mask j y)) goes (IsHome-other j home)),
          )
        ]
  ]
  kicked n fp index bs (inr (e, home)) = inl (
    index,
    home,
    subst (λ c. has_entry c x ≡ true) (sym (place_here index _ bs))
        (subst (λ y. has_entry (put_entry (bs index) n fp) y ≡ true) (sym e)
          (has_entry_put (bs index) n fp)),
  )

  added_or-KeptBy :
      (fp index : ℕ) (bs : Buckets) (rest : Outcome) (o : Option Bucket)
      → add fp (bs index) ≡ o
      → Kept mask fp index bs x i
      → KeptBy mask x i rest
      → KeptBy mask x i (added_or index bs rest o)
  unfolding added_or
  added_or-KeptBy fp index bs rest none e kept later = later
  added_or-KeptBy fp index bs rest (some b) e (inl (j, home, has)) later = (
    j,
    home,
    has_entry-place index j x b bs (λ h. has_entry-add fp x (bs index) b e nonzero h) has,
  )
  added_or-KeptBy fp index bs rest (some b) e (inr (same, home)) later = (
    index,
    home,
    subst (λ c. has_entry c x ≡ true) (sym (place_here index b bs))
        (subst (λ y. has_entry b y ≡ true) (sym same) (has_entry-added fp (bs index) b e)),
  )

  kick-KeptBy :
      (rounds seed fp index : ℕ) (bs : Buckets)
      → Kept mask fp index bs x i
      → KeptBy mask x i (kick mask rounds seed fp index bs)
  unfolding kick
  kick-KeptBy zero seed fp index bs kept = kept
  kick-KeptBy (suc rounds) seed fp index bs kept =
      let n = bit_and seed 3 in
      let entry = entry_at (bs index) n in
      let bs' : Buckets = place index (put_entry (bs index) n fp) bs in
      let index' = other mask index entry in
      let next = kicked n fp index bs kept in
      added_or-KeptBy entry index' bs' _ _ refl next
        (kick-KeptBy rounds (seed / 4) entry index' bs' next)

  kick_again-KeptBy :
      (seeds : ℕ) (gen : ℕ → ℕ) (o : Outcome)
      → KeptBy mask x i o
      → KeptBy mask x i (kick_again mask seeds gen o)
  unfolding kick_again
  kick_again-KeptBy seeds gen (added bs) kept = kept
  kick_again-KeptBy zero gen (homeless fp index bs) kept = kept
  kick_again-KeptBy (suc seeds) gen (homeless fp index bs) kept =
      kick_again-KeptBy seeds (λ n. gen (suc n)) _ (kick-KeptBy 32 (gen 0) fp index bs kept)

  -- The outcome that an insertion comes to keeps the entries of the filter, and the new one.
  tried-KeptBy :
      (gen : ℕ → ℕ) (fp index : ℕ) (bs : Buckets)
      → index < 2 ^ k
      → Found mask bs x i ⊎ ((x ≡ fp) × (index ≡ i))
      → let index' = other mask index fp in
        KeptBy mask x i (
          added_or index bs
            (added_or index' bs
              (kick_again mask 16 gen (homeless fp index' bs))
              (add fp (bs index')))
            (add fp (bs index)))
  tried-KeptBy gen fp index bs inside given =
      let index' = other mask index fp in
      let kept : Kept mask fp index bs x i = elim given [
        | inl found ↦ inl found
        | inr (e, at) ↦ inr (e, inl at)
      ] in
      let kept' : Kept mask fp index' bs x i = elim given [
        | inl found ↦ inl found
        | inr (e, at) ↦
            inr
              (e, subst (λ y. IsHome mask x i (other mask index y)) e (IsHome-other index (inl at)))
      ] in
      added_or-KeptBy fp index bs _ _ refl kept (
        added_or-KeptBy fp index' bs _ _ refl kept'
          (kick_again-KeptBy 16 gen (homeless fp index' bs) kept'))

odd : (c : ℕ) → bit_or c 1 % 2 ^ 32 ≢ 0
odd c h = absurd (omega (arith, bit_or_step c 1))

fp_32-nonzero : (fingerprint : ℕ) → fp_32 fingerprint ≢ 0
unfolding fp_32
fp_32-nonzero fingerprint h = elim (Bool-cases (fingerprint % 2 ^ 32 == 0)) [
  | inl e ↦ odd (fingerprint / 2 ^ 32) (sym (if_true (fingerprint % 2 ^ 32 == 0) _ _ e) ∙ h)
  | inr e ↦
      let z : fingerprint % 2 ^ 32 ≡ 0 = sym (if_false (fingerprint % 2 ^ 32 == 0) _ _ e) ∙ h in
      absurd (cc ((==_iff _ 0).1 z, e))
]

or_cases : (a b : Bool) → (a || b) ≡ true → (a ≡ true) ⊎ (b ≡ true)
or_cases a b h = ground (arith, h)

or_left : (a b : Bool) → a ≡ true → (a || b) ≡ true
or_left a b h = ground (arith, h)

or_right : (a b : Bool) → b ≡ true → (a || b) ≡ true
or_right a b h = ground (arith, h)

Found-test :
    (h : HashFilter) (fingerprint : ℕ)
    → (test h fingerprint ≡ true)
      ↔ Found h.num_buckets_mask h.buckets
          (fp_32 fingerprint)
          (index_of h.num_buckets_mask fingerprint)
unfolding test find_two
Found-test h fingerprint =
    let mask = h.num_buckets_mask in
    let fp = fp_32 fingerprint in
    let index = index_of mask fingerprint in
    let here : (i j : ℕ) → j ≡ i → has_entry (h.buckets j) fp ≡ has_entry (h.buckets i) fp =
      λ i j e. ap (λ n. has_entry (h.buckets n) fp) e in
    (
      λ t. elim (or_cases (has_entry (h.buckets index) fp) _ t) [
        | inl e ↦ (index, inl refl, e)
        | inr e ↦ (other mask index fp, inr refl, e)
      ],
      λ (j, home, has). elim home [
        | inl e ↦ or_left _ _ (sym (here index j e) ∙ has)
        | inr e ↦ or_right _ _ (sym (here (other mask index fp) j e) ∙ has)
      ],
    )

index_of_lt : (k mask fingerprint : ℕ) → mask < 2 ^ k → index_of mask fingerprint < 2 ^ k
unfolding index_of
index_of_lt k mask fingerprint small = bit_and_lt k (fingerprint / 2 ^ 32) mask small

pub inserted-true :
    (h h' : HashFilter) (o : Outcome)
    → inserted h o ≡ (true, h')
    → (bs : Buckets) × (o ≡ added bs)
      × (h' ≡ record h { buckets = bs; size = (h.size + 1) % 2 ^ 32 })
unfolding inserted
inserted-true h h' (added bs) e = (bs, refl, ap (λ p. p.1) (sym e))
inserted-true h h' (homeless fp index bs) e = absurd (cc (ap (λ p. p.0) e))

-- A filter of a power of two buckets. After an insertion that returns true the filter tests true for
-- the fingerprint, and for every fingerprint for which it did before.
pub test-insert :
    (k : ℕ) (gen : ℕ → ℕ) (fingerprint g : ℕ) (h h' : HashFilter)
    → h.num_buckets_mask < 2 ^ k
    → insert gen fingerprint h ≡ (true, h')
    → (g ≡ fingerprint) ⊎ (test h g ≡ true)
    → test h' g ≡ true
unfolding insert
test-insert k gen fingerprint g h h' small is given =
    let mask = h.num_buckets_mask in
    let (bs, e, same) = inserted-true h h' _ is in
    let fp = fp_32 g in
    let first = index_of mask g in
    let inside : (f : ℕ) → index_of mask f < 2 ^ k = λ f. index_of_lt k mask f small in
    let before : Found mask h.buckets fp first
        ⊎ ((fp ≡ fp_32 fingerprint) × (index_of mask fingerprint ≡ first)) =
      elim given [
        | inl e ↦ inr (ap fp_32 e, ap (index_of mask) (sym e))
        | inr t ↦ inl ((Found-test h g).0 t)
      ] in
    let after : Found mask bs fp first = subst (KeptBy mask fp first) e (
      tried-KeptBy k mask small fp first (fp_32-nonzero g) (inside g) gen (fp_32 fingerprint)
        (index_of mask fingerprint) h.buckets (inside fingerprint) before) in
    subst (λ x. test x g ≡ true) (sym same)
      ((Found-test (record h { buckets = bs; size = (h.size + 1) % 2 ^ 32 }) g).1 after)
