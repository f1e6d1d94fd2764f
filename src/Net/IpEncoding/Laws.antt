-- ===== src/Net/IpEncoding/Laws.antt =====
-- The round trips of the encoding.
use trunk.Prelude.{
  ℕ, ◌≡◌, ap, ◌∙◌, List, none, some, false, ◌==◌, ==_iff, if_true, if_false, Bool-cases, inl, inr,
  ◌⊎◌, ◌≢◌, length, take_all, arith,
}
use trunk.Net.IpEncoding.{Addresses, Address, v4, v6, encode, encode_v4, encode_v6, decode}

module _ (addresses : Addresses) where
  decode_4 :
      (bytes : List ℕ)
      → length bytes ≡ 4
      → decode addresses bytes ≡ some (v4 (addresses.address_v4 bytes))
  unfolding decode
  decode_4 bytes e =
      if_true (length bytes == 4) _ _ ((==_iff (length bytes) 4).1 e)
      ∙ ap (λ t. some (v4 (addresses.address_v4 t))) (take_all 4 bytes (omega (arith, e)))

  decode_16 :
      (bytes : List ℕ)
      → length bytes ≡ 16
      → decode addresses bytes ≡ some (v6 (addresses.address_v6 bytes))
  unfolding decode
  decode_16 bytes e =
      let other : (length bytes == 4) ≡ false = ground (arith, e) in
      if_false (length bytes == 4) _ _ other
      ∙ if_true (length bytes == 16) _ _ ((==_iff (length bytes) 16).1 e)
      ∙ ap (λ t. some (v6 (addresses.address_v6 t))) (take_all 16 bytes (omega (arith, e)))

  decode_other :
      (bytes : List ℕ)
      → (length bytes == 4) ≡ false
      → (length bytes == 16) ≡ false
      → decode addresses bytes ≡ none
  unfolding decode
  decode_other bytes e e' =
      if_false (length bytes == 4) _ _ e ∙ if_false (length bytes == 16) _ _ e'

-- Bytes are decoded to an address that is encoded to the same bytes again; or there is no address,
-- and they are neither 4 nor 16.
decode_lem :
    (addresses : Addresses) (bytes : List ℕ)
    → ((a : Address addresses) × (decode addresses bytes ≡ some a) × (encode addresses a ≡ bytes))
      ⊎ ((decode addresses bytes ≡ none) × (length bytes ≢ 4) × (length bytes ≢ 16))
unfolding encode encode_v4 encode_v6
decode_lem addresses bytes = elim (Bool-cases (length bytes == 4)) [
  | inl e ↦
      let four : length bytes ≡ 4 = (==_iff (length bytes) 4).0 e in
      inl (
        v4 (addresses.address_v4 bytes),
        decode_4 addresses bytes four,
        addresses.v4_to_bytes-address_v4 bytes four,
      )
  | inr e ↦ elim (Bool-cases (length bytes == 16)) [
    | inl e' ↦
        let sixteen : length bytes ≡ 16 = (==_iff (length bytes) 16).0 e' in
        inl (
          v6 (addresses.address_v6 bytes),
          decode_16 addresses bytes sixteen,
          addresses.v6_to_bytes-address_v6 bytes sixteen,
        )
    | inr e' ↦ inr (decode_other addresses bytes e e', ground (arith, e), ground (arith, e'))
  ]
]

-- An address of version 4 is decoded to itself.
pub decode-encode_v4 :
    (addresses : Addresses) (a : addresses.AddressV4)
    → decode addresses (encode addresses (v4 a)) ≡ some (v4 a)
unfolding encode encode_v4
decode-encode_v4 addresses a =
    decode_4 addresses (addresses.v4_to_bytes a) (addresses.length-v4_to_bytes a)
    ∙ ap (λ b. some (v4 b)) (addresses.address_v4-v4_to_bytes a)
