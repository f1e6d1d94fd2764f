-- ===== src/Net/IpEncoding.antt =====
-- net/ip-encoding.h and net/ip-encoding.cc: addresses as bytes.
-- The addresses of Boost.Asio are a parameter, with what its manual says of their bytes.
mod Laws
mod Tests
use trunk.Prelude.{ℕ, ◌≡◌, List, Option, none, some, ◌==◌, if◌then◌else◌, length, take}

-- An address is of version 4 or of version 6. One of version 6 has a scope too, which its bytes do
-- not tell.
pub record Addresses : Type 1 where
  pub AddressV4 : Type 0
  pub AddressV6 : Type 0
  pub v4_to_bytes : AddressV4 → List ℕ
  pub v6_to_bytes : AddressV6 → List ℕ
  pub address_v4 : List ℕ → AddressV4
  pub address_v6 : List ℕ → AddressV6
  pub length-v4_to_bytes : (a : AddressV4) → length (v4_to_bytes a) ≡ 4
  pub length-v6_to_bytes : (a : AddressV6) → length (v6_to_bytes a) ≡ 16
  pub address_v4-v4_to_bytes : (a : AddressV4) → address_v4 (v4_to_bytes a) ≡ a
  pub v4_to_bytes-address_v4 :
      (bytes : List ℕ) → length bytes ≡ 4 → v4_to_bytes (address_v4 bytes) ≡ bytes
  pub v6_to_bytes-address_v6 :
      (bytes : List ℕ) → length bytes ≡ 16 → v6_to_bytes (address_v6 bytes) ≡ bytes

module _ (addresses : Addresses) where
  open addresses use {AddressV4, AddressV6, v4_to_bytes, v6_to_bytes, address_v4, address_v6}

  pub data Address : Type 0 where
    v4 : AddressV4 → Address
    v6 : AddressV6 → Address

  unfoldable pub encode_v4 : AddressV4 → List ℕ
  encode_v4 address = v4_to_bytes address

  unfoldable pub encode_v6 : AddressV6 → List ℕ
  encode_v6 address = v6_to_bytes address

  unfoldable pub encode : Address → List ℕ
  encode (v4 address) = encode_v4 address
  encode (v6 address) = encode_v6 address

  -- `none` is false.
  unfoldable pub decode : List ℕ → Option Address
  decode bytes =
      if length bytes == 4
      then some (v4 (address_v4 (take 4 bytes)))
      else if length bytes == 16
      then some (v6 (address_v6 (take 16 bytes)))
      else none

  unfoldable pub decode_v4 : List ℕ → Option AddressV4
  decode_v4 bytes = if length bytes == 4 then some (address_v4 bytes) else none

  unfoldable pub decode_v6 : List ℕ → Option AddressV6
  decode_v6 bytes = if length bytes == 16 then some (address_v6 bytes) else none
