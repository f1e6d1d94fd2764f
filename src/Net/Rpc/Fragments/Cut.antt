-- ===== src/Net/Rpc/Fragments/Cut.antt =====
-- What the datagrams of a message are: its parts, all of them, each behind a header that says where
-- it belongs.
use trunk.Prelude.{
  ℕ, zero, suc, ◌+◌, ◌-◌, ◌%◌, ◌^◌, ◌≤◌, ◌<◌, ◌≡◌, refl, ap, sym, ◌∙◌, List, [], ◌∷◌, some, true,
  false, Bool-cases, inl, inr, tests, ltb, take, drop, length, length-take, length-drop, All, arith,
}
use trunk.Prelude.Endian.{load-store}
use trunk.Security.Key.{Cipher, encrypt}
use trunk.Net.Rpc.Wire.{header_size, to_bytes, from_bytes, body, is_partial, nonce}
use trunk.Net.Rpc.Fragments.{Sending, size_at, fragment, pack_loop, pack}
use trunk.Net.Rpc.Assembly.{IntervalSet, Assembly}
use trunk.Net.Rpc.Assembly.Holds.{IsPart, Marked}

-- The longest message whose offsets fit into the header.
abbrev pub longest : ℕ
longest = 2 ^ 16

-- The identities fit into the header, and a fragment holds a byte at least.
pub record IsProper (sending : Sending) : Type 0 where
  pub request_id_fits : sending.request_id < 2 ^ 64
  pub key_fingerprint_fits : sending.key_fingerprint < 2 ^ 64
  pub some_size : 0 < sending.fragment_size

-- A datagram whose part has been marked: what stands in front of the tag, where the header says.
abbrev pub MarkedBy : (sets : IntervalSet) → Assembly sets → List ℕ → Type 0
MarkedBy sets a d =
    Marked sets ((from_bytes d).offset) (length (body d) - 16) (is_partial (from_bytes d)) a

module _ (cipher : Cipher) (sending : Sending) where
  -- A datagram that carries a part of the message.
  pub record Carries (m d : List ℕ) : Type 0 where
    pub text : List ℕ
    pub part : IsPart m (from_bytes d).offset text (is_partial (from_bytes d))
    pub identity : (from_bytes d).request_id ≡ sending.request_id
    pub named : (from_bytes d).key_fingerprint ≡ sending.key_fingerprint
    pub whole : header_size ≤ length d
    pub sealed :
        body d
        ≡ encrypt cipher sending.key
            (nonce sending.request_id ((from_bytes d).offset) sending.direction)
            text
    pub tagged : length (body d) ≡ length text + 16

  module _ (m : List ℕ) (offset : ℕ) (inside : offset ≤ length m) (low : offset < 2 ^ 16)
      (proper : IsProper sending) where
    fragment-offset : (from_bytes (fragment cipher sending m offset)).offset ≡ offset
    unfolding from_bytes to_bytes fragment
    fragment-offset = load-store 2 (offset % 2 ^ 16) (omega arith) ∙ omega arith

    fragment-identity :
        (from_bytes (fragment cipher sending m offset)).request_id ≡ sending.request_id
    unfolding from_bytes to_bytes fragment
    fragment-identity = load-store 8 sending.request_id (omega (arith, proper.request_id_fits))

    fragment-key_fingerprint :
        (from_bytes (fragment cipher sending m offset)).key_fingerprint ≡ sending.key_fingerprint
    unfolding from_bytes to_bytes fragment
    fragment-key_fingerprint =
        load-store 8 sending.key_fingerprint (omega (arith, proper.key_fingerprint_fits))

    abbrev here : ℕ
    here = size_at cipher sending m offset

    fragment-partial :
        is_partial (from_bytes (fragment cipher sending m offset)) ≡ ltb (offset + here) (length m)
    unfolding from_bytes to_bytes fragment is_partial
    fragment-partial = elim (Bool-cases (ltb (offset + here) (length m))) [
      | inl e ↦ rw e refl
      | inr e ↦ rw e refl
    ]

    fragment-body :
        body (fragment cipher sending m offset)
        ≡ encrypt cipher sending.key
            (nonce sending.request_id (offset % 2 ^ 16) sending.direction)
            (take here (drop offset m))
    unfolding to_bytes fragment
    fragment-body = refl

    fragment_whole : header_size ≤ length (fragment cipher sending m offset)
    unfolding to_bytes fragment
    fragment_whole = omega arith

    length-part : length (take here (drop offset m)) ≡ here
    length-part = omega (arith, length-take here (drop offset m), length-drop offset m)

    length-body : length (body (fragment cipher sending m offset)) ≡ here + 16
    unfolding encrypt
    length-body =
        ap (λ (t : List ℕ). length t) fragment-body
        ∙ cipher.length-seal sending.key
            (nonce sending.request_id (offset % 2 ^ 16) sending.direction)
            (take here (drop offset m))
        ∙ ap (λ k. k + 16) length-part

    pub fragment-Carries : Carries m (fragment cipher sending m offset)
    fragment-Carries = record {
      text = take here (drop offset m);
      part =
          simp (fragment-offset, fragment-partial)
            (record {
              cut = ap (λ k. take k (drop offset m)) (sym length-part);
              fits = omega (arith, length-part);
              last = λ e. ground (arith, length-part);
            });
      identity = fragment-identity;
      named = fragment-key_fingerprint;
      whole = fragment_whole;
      sealed =
          fragment-body
          ∙ ap
              (λ k.
                encrypt cipher sending.key (nonce sending.request_id k sending.direction)
                  (take here (drop offset m)))
              (omega (arith, fragment-offset));
      tagged = omega (arith, length-body, length-part);
    }

    -- Marking this fragment marks the bytes from its offset to the next.
    fragment-Marked :
        (sets : IntervalSet) (a : Assembly sets)
        → MarkedBy sets a (fragment cipher sending m offset)
        → ((i : ℕ) → offset ≤ i → i < offset + here → sets.member a.intervals i ≡ true)
          × (ltb (offset + here) (length m) ≡ false → a.size ≡ offset + here)
    fragment-Marked sets a k =
        let n : length (body (fragment cipher sending m offset)) - 16 ≡ here =
          omega (arith, length-body) in
        (
          λ i lo hi.
              k.covers i (omega (arith, fragment-offset)) (omega (arith, fragment-offset, n)),
          λ e. k.ends (fragment-partial ∙ e) ∙ omega (arith, fragment-offset, n),
        )

  -- All the datagrams of a message from an offset on: they carry its parts, and whatever they all
  -- have marked covers the message from there to its end.
  pub record Cut (m : List ℕ) (from : ℕ) (ds : List (List ℕ)) : Type 1 where
    pub carried : All (Carries m) ds
    pub covered :
        (sets : IntervalSet) (a : Assembly sets)
        → All (MarkedBy sets a) ds
        → ((i : ℕ) → from ≤ i → i < length m → sets.member a.intervals i ≡ true)
          × (a.size ≡ length m)

  module _ (m : List ℕ) (short : length m ≤ longest) (proper : IsProper sending) where
    pack_loop-Cut :
        (fuel offset : ℕ)
        → offset ≤ length m
        → offset < 2 ^ 16
        → length m - offset < fuel
        → (ds : List (List ℕ)) × (pack_loop cipher sending fuel m offset ≡ some ds)
          × Cut m offset ds
    unfolding pack_loop
    pack_loop-Cut zero offset inside low h = absurd (omega arith)
    pack_loop-Cut (suc fuel) offset inside low h =
        let next : ℕ = offset + size_at cipher sending m offset in
        let carries = fragment-Carries m offset inside low proper in
        elim (Bool-cases (ltb next (length m))) [
          | inl e ↦
              let (ds, is, c) = pack_loop-Cut fuel next (omega tests) (omega tests) (omega tests) in
              (
                fragment cipher sending m offset ∷ ds,
                rw (e, is) refl,
                record {
                  carried = (carries, c.carried);
                  covered = λ sets a (k, ks).
                      let (mine, _) = fragment-Marked m offset inside low proper sets a k in
                      let (theirs, size) = c.covered sets a ks in
                      (
                        λ i lo hi. elim (Bool-cases (ltb i next)) [
                          | inl e' ↦ mine i lo (omega tests)
                          | inr e' ↦ theirs i (ground arith) hi
                        ],
                        size,
                      );
                },
              )
          | inr e ↦ (
            fragment cipher sending m offset ∷ [],
            rw e refl,
            record {
              carried = (carries, tt);
              covered = λ sets a (k, ks).
                  let (mine, ends) = fragment-Marked m offset inside low proper sets a k in
                  let stop : length m ≤ next = ground arith in
                  (λ i lo hi. mine i lo (omega arith), ends e ∙ omega arith);
            },
          )
        ]

    -- Whatever the message, if no longer than its offsets can say, the loop ends.
    pub pack-Cut : (ds : List (List ℕ)) × (pack cipher sending m ≡ some ds) × Cut m 0 ds
    unfolding pack
    pack-Cut = pack_loop-Cut (length m + 1) 0 (omega arith) (omega arith) (omega arith)
