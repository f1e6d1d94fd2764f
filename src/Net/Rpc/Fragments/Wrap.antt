-- ===== src/Net/Rpc/Fragments/Wrap.antt =====
-- Messages of more than 2^16 bytes: the offset that a datagram has room for.
use mathlib.Core.Option.{some-injective}
use trunk.Prelude.{
  ℕ, zero, suc, ◌+◌, ◌-◌, ◌*◌, ◌%◌, ◌^◌, ◌<◌, ◌≡◌, refl, ap, sym, ◌∙◌, List, [], ◌∷◌, some, true,
  ltb, if_true, if_false, Bool-cases, inl, inr, take, drop, length, get_elem?, arith,
}
use trunk.Prelude.Monad.{◌>>=◌, bind_some}
use trunk.Security.Key.{Cipher, encrypt}
use trunk.Net.Rpc.Wire.{to_bytes, from_bytes, body, nonce}
use trunk.Net.Rpc.Fragments.{Sending, size_at, fragment, pack_loop, pack}

-- The bytes of a message from an offset on that go into its fragment.
abbrev pub text_at : Cipher → Sending → List ℕ → ℕ → List ℕ
text_at cipher sending m offset = take (size_at cipher sending m offset) (drop offset m)

module _ (cipher : Cipher) (sending : Sending) (some_size : 0 < sending.fragment_size) where
  abbrev step : List ℕ → ℕ → ℕ
  step m offset = offset + size_at cipher sending m offset

  -- The loop ends.
  pack_loop_ends :
      (fuel : ℕ) (m : List ℕ) (offset : ℕ)
      → length m - offset < fuel
      → (fs : List (List ℕ)) × (pack_loop cipher sending fuel m offset ≡ some fs)
  unfolding pack_loop
  pack_loop_ends zero m offset h = absurd (omega arith)
  pack_loop_ends (suc fuel) m offset h = elim (Bool-cases (ltb (step m offset) (length m))) [
    | inl more ↦
        let (fs, e) = pack_loop_ends fuel m (step m offset) (ground (arith, more)) in
        (
          fragment cipher sending m offset ∷ fs,
          if_true _ _ _ more
              ∙ ap (λ r. do rest ← r; some (fragment cipher sending m offset ∷ rest)) e,
        )
    | inr over ↦ (fragment cipher sending m offset ∷ [], if_false _ _ _ over)
  ]

  -- All fragments but the last are full, so each stands where it is looked for.
  get_elem?-pack_loop :
      (fuel : ℕ) (m : List ℕ) (offset k : ℕ) (fs : List (List ℕ))
      → pack_loop cipher sending fuel m offset ≡ some fs
      → offset + k * sending.fragment_size < length m
      → get_elem? fs k ≡ some (fragment cipher sending m (offset + k * sending.fragment_size))
  unfolding pack_loop
  get_elem?-pack_loop zero m offset k fs e h = absurd (cc e)
  get_elem?-pack_loop (suc fuel) m offset zero fs e h =
      let here : fragment cipher sending m offset
          ≡ fragment cipher sending m (offset + 0 * sending.fragment_size) =
        ap (fragment cipher sending m) (omega arith) in
      elim (Bool-cases (ltb (step m offset) (length m))) [
        | inl more ↦
            let (rest, _, is) =
              bind_some (pack_loop cipher sending fuel m (step m offset)) _ fs
                (sym (if_true _ _ _ more) ∙ e) in
            ap (λ ds. get_elem? ds 0) (sym is) ∙ ap some here
        | inr over ↦
            let is = some-injective _ _ (sym (if_false _ _ _ over) ∙ e) in
            ap (λ ds. get_elem? ds 0) (sym is) ∙ ap some here
      ]
  get_elem?-pack_loop (suc fuel) m offset (suc k) fs e h =
      let s : ℕ = sending.fragment_size in
      let times : suc k * s ≡ s + k * s = omega arith in
      let full : step m offset ≡ offset + s = omega (arith, times) in
      let more : ltb (step m offset) (length m) ≡ true = ground (arith, full, times) in
      let (rest, is_rest, is) =
        bind_some (pack_loop cipher sending fuel m (step m offset)) _ fs
          (sym (if_true _ _ _ more) ∙ e) in
      ap (λ ds. get_elem? ds (suc k)) (sym is)
      ∙ get_elem?-pack_loop fuel m (step m offset) k rest is_rest (omega (arith, full, times))
      ∙ ap (λ o. some (fragment cipher sending m o)) (omega (arith, full, times))

-- What a datagram says and holds, by the low bits of its offset.
fragment_low :
    (cipher : Cipher) (sending : Sending) (m : List ℕ) (offset low : ℕ)
    → offset % 2 ^ 16 ≡ low % 2 ^ 16
    → ((from_bytes (fragment cipher sending m offset)).offset
        ≡ (from_bytes (fragment cipher sending m low)).offset)
      × (body (fragment cipher sending m offset)
          ≡ encrypt cipher sending.key
              (nonce sending.request_id (low % 2 ^ 16) sending.direction)
              (text_at cipher sending m offset))
unfolding from_bytes to_bytes fragment
fragment_low cipher sending m offset low same = (
  ap
      (λ k.
        (from_bytes (
          to_bytes (record {
            key_fingerprint = sending.key_fingerprint;
            request_id = sending.request_id;
            offset = k;
            unused = 0;
            flags = 0;
          }))).offset)
      same,
  ap
      (λ k.
        encrypt cipher sending.key (nonce sending.request_id k sending.direction)
          (text_at cipher sending m offset))
      same,
)

-- A message is cut into fragments of a size, and `n`, above zero, times that size is a multiple of
-- 2^16. If the message is longer than `i + n` fragments, then it is packed, and its fragments `i` and
-- `i + n`, both of which are among the datagrams, say the same offset and hold texts from different
-- places of the message, sealed under the same key and the same nonce.
pub pack_wraps :
    (cipher : Cipher) (sending : Sending) (m : List ℕ) (i n : ℕ)
    → 0 < sending.fragment_size
    → 0 < n
    → n * sending.fragment_size % 2 ^ 16 ≡ 0
    → (i + n) * sending.fragment_size < length m
    → let low = i * sending.fragment_size in
      let high = (i + n) * sending.fragment_size in
      let number = nonce sending.request_id (low % 2 ^ 16) sending.direction in
      (fs : List (List ℕ)) × (d : List ℕ) × (d' : List ℕ) × (pack cipher sending m ≡ some fs)
      × (get_elem? fs i ≡ some d)
      × (get_elem? fs (i + n) ≡ some d')
      × ((from_bytes d').offset ≡ (from_bytes d).offset)
      × (body d ≡ encrypt cipher sending.key number (text_at cipher sending m low))
      × (body d' ≡ encrypt cipher sending.key number (text_at cipher sending m high))
unfolding pack
pack_wraps cipher sending m i n some_size further wraps long =
    let s : ℕ = sending.fragment_size in
    let split : (i + n) * s ≡ i * s + n * s = omega arith in
    let (fs, packed) = pack_loop_ends cipher sending some_size (length m + 1) m 0 (omega arith) in
    let at = get_elem?-pack_loop cipher sending some_size (length m + 1) m 0 in
    let (said, held) =
      fragment_low cipher sending m ((i + n) * s) (i * s) (omega (arith, split, wraps)) in
    (
      fs,
      fragment cipher sending m (i * s),
      fragment cipher sending m ((i + n) * s),
      packed,
      at i fs packed (omega (arith, split))
          ∙ ap (λ o. some (fragment cipher sending m o)) (omega arith),
      at (i + n) fs packed (omega arith)
          ∙ ap (λ o. some (fragment cipher sending m o)) (omega arith),
      said,
      (fragment_low cipher sending m (i * s) (i * s) refl).1,
      held,
    )
