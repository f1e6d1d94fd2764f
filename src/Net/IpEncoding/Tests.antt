-- ===== src/Net/IpEncoding/Tests.antt =====
-- The encoding of addresses that are lists of their bytes.
use trunk.Prelude.{
  ℕ, zero, suc, ◌∙◌, ◌≡◌, refl, List, [], ◌∷◌, some, length, replicate, take, ◌++◌, length-take,
  length-append, take-append_le, take_all, arith,
}
use trunk.Net.IpEncoding.{Addresses, v4, decode}

record Quad : Type 0 where
  first : ℕ
  second : ℕ
  third : ℕ
  fourth : ℕ

abbrev quad_bytes : Quad → List ℕ
quad_bytes q = q.first ∷ q.second ∷ q.third ∷ q.fourth ∷ []

abbrev nth : ℕ → List ℕ → ℕ
nth n [] = 0
nth zero (b ∷ bytes) = b
nth (suc n) (b ∷ bytes) = nth n bytes

abbrev quad : List ℕ → Quad
quad bytes = record {
  first = nth 0 bytes;
  second = nth 1 bytes;
  third = nth 2 bytes;
  fourth = nth 3 bytes;
}

quad_bytes-quad : (bytes : List ℕ) → length bytes ≡ 4 → quad_bytes (quad bytes) ≡ bytes
quad_bytes-quad [] e = absurd (omega (arith, e))
quad_bytes-quad (a ∷ []) e = absurd (omega (arith, e))
quad_bytes-quad (a ∷ b ∷ []) e = absurd (omega (arith, e))
quad_bytes-quad (a ∷ b ∷ c ∷ []) e = absurd (omega (arith, e))
quad_bytes-quad (a ∷ b ∷ c ∷ d ∷ []) e = refl
quad_bytes-quad (a ∷ b ∷ c ∷ d ∷ x ∷ bytes) e = absurd (omega (arith, e))

-- Sixteen bytes.
abbrev Sixteen : Type 0
Sixteen = (bytes : List ℕ) × (length bytes ≡ 16)

abbrev cut : List ℕ → List ℕ
cut bytes = take 16 (bytes ++ replicate 16 0)

length-cut : (bytes : List ℕ) → length (cut bytes) ≡ 16
length-cut bytes =
    omega (arith, length-take 16 (bytes ++ replicate 16 0), length-append bytes (replicate 16 0))

cut_same : (bytes : List ℕ) → length bytes ≡ 16 → cut bytes ≡ bytes
cut_same bytes e =
    take-append_le 16 bytes (replicate 16 0) (omega (arith, e))
    ∙ take_all 16 bytes (omega (arith, e))

abbrev plain_addresses : Addresses
plain_addresses = record {
  AddressV4 = Quad;
  AddressV6 = Sixteen;
  v4_to_bytes = quad_bytes;
  v6_to_bytes = λ a. a.0;
  address_v4 = quad;
  address_v6 = λ bytes. (cut bytes, length-cut bytes);
  length-v4_to_bytes = λ a. refl;
  length-v6_to_bytes = λ a. a.1;
  address_v4-v4_to_bytes = λ a. refl;
  v4_to_bytes-address_v4 = quad_bytes-quad;
  v6_to_bytes-address_v6 = cut_same;
}

localhost : decode plain_addresses (127 ∷ 0 ∷ 0 ∷ 1 ∷ []) ≡ some (v4 (quad (127 ∷ 0 ∷ 0 ∷ 1 ∷ [])))
unfolding decode
localhost = refl
