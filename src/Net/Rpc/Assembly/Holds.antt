-- ===== src/Net/Rpc/Assembly/Holds.antt =====
-- An assembly that holds parts of a message, and only those.
use trunk.Prelude.{
  ℕ, ◌+◌, ◌-◌, ◌≤◌, ◌<◌, ◌≡◌, refl, ap, sym, ◌∙◌, List, Bool, true, false, ◌⊎◌, inl, inr, ◌&&◌,
  ◌||◌, ltb, leb, Bool-cases, take, drop, length, get_elem?, length-take, arith,
}
use trunk.Net.Rpc.Assembly.{
  IntervalSet, Assembly, new_assembly, grow, put, write, mark, is_complete, unknown_size,
}
use trunk.Net.Rpc.Assembly.Lists.{
  get_elem?-lt, get_elem?-take, get_elem?-drop, get_elem?-grow, get_elem?-put, length-grow,
  take-ext,
}

-- A part of a message, the last one if it is not partial.
pub record IsPart (m : List ℕ) (offset : ℕ) (text : List ℕ) (partial : Bool) : Type 0 where
  pub cut : text ≡ take (length text) (drop offset m)
  pub fits : offset + length text ≤ length m
  pub last : partial ≡ false → offset + length text ≡ length m

module _ (sets : IntervalSet) where
  open sets use {member, member-empty, member-add, contains_iff}

  -- The intervals hold places of the message only, with the bytes that stand there.
  pub record Holds (m : List ℕ) (a : Assembly sets) : Type 0 where
    pub within :
        (i : ℕ)
        → member a.intervals i ≡ true
        → (i < length m) × (get_elem? a.bytes i ≡ get_elem? m i)
    pub sized : (a.size ≡ unknown_size) ⊎ (a.size ≡ length m)

  -- What a fragment has left in the intervals and in the size.
  pub record Marked (offset size : ℕ) (partial : Bool) (a : Assembly sets) : Type 0 where
    pub covers : (i : ℕ) → offset ≤ i → i < offset + size → member a.intervals i ≡ true
    pub ends : partial ≡ false → a.size ≡ offset + size

  abbrev pub accept : ℕ → ℕ → List ℕ → Bool → Assembly sets → Assembly sets
  accept offset body_size text partial a =
      mark sets offset (length text) partial (write sets offset body_size text a)

  pub new_assembly-Holds : (m : List ℕ) → Holds m (new_assembly sets)
  unfolding new_assembly
  new_assembly-Holds m = record {
    within = λ i h. absurd (cc (h, member-empty i));
    sized = inl refl;
  }

  -- A part's own bytes are those of the message.
  part_bytes :
      (m : List ℕ) (offset : ℕ) (text : List ℕ) (partial : Bool) (i : ℕ)
      → IsPart m offset text partial
      → offset ≤ i
      → i < offset + length text
      → get_elem? text (i - offset) ≡ get_elem? m i
  part_bytes m offset text partial i p h k =
      ap (λ t. get_elem? t (i - offset)) p.cut
      ∙ ground (
        arith,
        get_elem?-take (length text) (drop offset m) (i - offset),
        get_elem?-drop offset m (i - offset),
        ap (get_elem? m) (e i offset h),
      )
    where
      e : (i offset : ℕ) → offset ≤ i → offset + (i - offset) ≡ i
      e i offset h = omega arith

  module _ (m : List ℕ) (offset body_size : ℕ) (text : List ℕ) (partial : Bool)
      (p : IsPart m offset text partial) (small : length text ≤ body_size) where
    write_byte :
        (bytes : List ℕ) (i : ℕ)
        → (get_elem? bytes i ≡ get_elem? m i) ⊎ ((offset ≤ i) × (i < offset + length text))
        → i < length m
        → get_elem? (put offset text (grow (offset + body_size) bytes)) i ≡ get_elem? m i
    write_byte bytes i h lt =
        let (x, is) = get_elem?-lt m i lt in
        let long = length-grow (offset + body_size) bytes in
        let at_put =
          get_elem?-put offset text (grow (offset + body_size) bytes) i (omega (arith, long)) in
        let in_range : Bool = leb offset i && ltb i (offset + length text) in
        elim (Bool-cases in_range) [
          | inl e ↦
              at_put ∙ rw e (part_bytes m offset text partial i p (ground arith) (ground arith))
          | inr e ↦
              let old : get_elem? bytes i ≡ get_elem? m i = elim h [
                | inl same ↦ same
                | inr (lo, hi) ↦ absurd (ground arith)
              ] in
              at_put ∙ rw e (get_elem?-grow (offset + body_size) bytes i x (old ∙ is) ∙ sym is)
        ]

    kept :
        (a : Assembly sets)
        → Holds m a
        → (i : ℕ) → (member a.intervals i || (leb offset i && ltb i (offset + length text))) ≡ true
        → (i < length m)
          × (get_elem? (put offset text (grow (offset + body_size) a.bytes)) i ≡ get_elem? m i)
    kept a h i k = elim (Bool-cases (member a.intervals i)) [
      | inl e ↦ let (lt, same) = h.within i e in (lt, write_byte a.bytes i (inl same) lt)
      | inr e ↦
          let here : (offset ≤ i) × (i < offset + length text) = ground arith in
          let lt : i < length m = omega (arith, p.fits) in (lt, write_byte a.bytes i (inr here) lt)
    ]

    pub accept-Holds :
        (a : Assembly sets) → Holds m a → Holds m (accept offset body_size text partial a)
    unfolding write mark
    accept-Holds a h = record {
      within = λ i k. kept a h i (sym (member-add a.intervals offset (offset + length text) i) ∙ k);
      sized = elim (Bool-cases partial) [ inl e ↦ rw e h.sized | inr e ↦ rw e (inr (p.last e)) ];
    }

    pub accept-Marked :
        (a : Assembly sets)
        → Marked offset (length text) partial (accept offset body_size text partial a)
    unfolding write mark
    accept-Marked a = record {
      covers = λ i h k. member-add a.intervals offset (offset + length text) i ∙ ground arith;
      ends = λ e. ground arith;
    }

    -- Marks stay.
    pub Marked-accept :
        (o n : ℕ) (q : Bool) (a : Assembly sets)
        → (q ≡ false → o + n ≡ length m)
        → Marked o n q a
        → Marked o n q (accept offset body_size text partial a)
    unfolding write mark
    Marked-accept o n q a last k = record {
      covers = λ i h l.
          member-add a.intervals offset (offset + length text) i ∙ ground (arith, k.covers i h l);
      ends = λ e. ground (arith, k.ends e, last e, p.last);
    }

  -- A complete assembly has the message in front.
  pub complete-Holds :
      (m : List ℕ) (a : Assembly sets)
      → Holds m a
      → length m < unknown_size
      → is_complete sets a ≡ true
      → (a.size ≡ length m) × (length m ≤ length a.bytes) × (take a.size a.bytes ≡ m)
  unfolding is_complete
  complete-Holds m a h short done =
      let all = (contains_iff a.intervals 0 a.size).0 done in
      let size : a.size ≡ length m = elim h.sized [
        | inl e ↦ absurd (
            omega
              (arith, (h.within (length m) (all (length m) (omega arith) (omega (arith, e)))).0))
        | inr e ↦ e
      ] in
      let same : take (length m) a.bytes ≡ m =
        take-ext a.bytes m (λ i k. (h.within i (all i (omega arith) (omega (arith, size)))).1) in
      (
        size,
        omega (arith, length-take (length m) a.bytes, ap (λ (t : List ℕ). length t) same),
        rw size same,
      )

  pub all_marked :
      (m : List ℕ) (a : Assembly sets)
      → a.size ≡ length m
      → ((i : ℕ) → i < length m → member a.intervals i ≡ true)
      → is_complete sets a ≡ true
  unfolding is_complete
  all_marked m a e all = (contains_iff a.intervals 0 a.size).1 (λ i h k. all i (omega (arith, e)))

  pub new_assembly_open : is_complete sets (new_assembly sets) ≡ false
  unfolding is_complete new_assembly
  new_assembly_open = elim (Bool-cases (sets.contains sets.empty 0 unknown_size)) [
    | inl e ↦ absurd (
        cc (
          (contains_iff sets.empty 0 unknown_size).0 e 0 (omega arith) (omega arith),
          member-empty 0,
        ))
    | inr e ↦ e
  ]
