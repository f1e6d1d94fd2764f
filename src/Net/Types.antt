-- ===== src/Net/Types.antt =====
-- net/types/: hosts and ports as texts.
-- A character is its code. The addresses of Boost.Asio with their texts, and the number of
-- absl::StrCat, are a parameter, with what their manuals say of them.
pub mod Host
pub mod AddrPort
pub mod HostPort
mod Text
pub mod Printed
pub mod Hosts
mod Tests
use trunk.Prelude.{
  ℕ, zero, suc, ◌+◌, ◌-◌, ◌<◌, ◌≡◌, List, [], ◌∷◌, Option, none, some, Bool, true, false, ◌&&◌,
  ◌||◌, ◌==◌, leb, if◌then◌else◌, ◌⊎◌, inl, inr, length, take, drop, get_elem?, All,
}
use trunk.Util.Strings.{IntType, is_digit, consume_int}
use trunk.Util.Strings.Decimal.{number}

pub record Texts : Type 1 where
  pub AddressV4 : Type 0
  pub AddressV6 : Type 0
  pub make_address_v4 : List ℕ → Option AddressV4
  pub make_address_v6 : List ℕ → Option AddressV6
  pub make_address : List ℕ → Option (AddressV4 ⊎ AddressV6)
  pub v4_to_string : AddressV4 → List ℕ
  pub v6_to_string : AddressV6 → List ℕ
  -- `absl::StrCat` of an `uint16_t`
  pub str_cat : ℕ → List ℕ
  pub make_address_v4-v4_to_string : (a : AddressV4) → make_address_v4 (v4_to_string a) ≡ some a
  pub make_address_v6-v6_to_string : (a : AddressV6) → make_address_v6 (v6_to_string a) ≡ some a
  pub make_address-v4_to_string : (a : AddressV4) → make_address (v4_to_string a) ≡ some (inl a)
  pub make_address-v6_to_string : (a : AddressV6) → make_address (v6_to_string a) ≡ some (inr a)
  -- digits and points
  pub v4_to_string-IsDotted :
      (a : AddressV4) → All (λ c. (is_digit c || c == 46) ≡ true) (v4_to_string a)
  pub length-v4_to_string : (a : AddressV4) → 0 < length (v4_to_string a)
  pub length-v6_to_string : (a : AddressV6) → 0 < length (v6_to_string a)
  pub str_cat-IsDigits : (n : ℕ) → All (λ c. is_digit c ≡ true) (str_cat n)
  pub length-str_cat : (n : ℕ) → 0 < length (str_cat n)
  pub number-str_cat : (n : ℕ) → number (str_cat n) ≡ n

module _ (texts : Texts) where
  open texts use {AddressV4, AddressV6, v4_to_string, v6_to_string}

  pub data Address : Type 0 where
    v4 : AddressV4 → Address
    v6 : AddressV6 → Address

  -- `net::address::to_string`
  unfoldable pub address_to_string : Address → List ℕ
  address_to_string (v4 a) = v4_to_string a
  address_to_string (v6 a) = v6_to_string a

  unfoldable pub either : AddressV4 ⊎ AddressV6 → Address
  either (inl a) = v4 a
  either (inr a) = v6 a

-- `rfind`: where a character stands last.
unfoldable pub rfind : ℕ → List ℕ → Option ℕ
rfind c [] = none
rfind c (x ∷ string) = elim (rfind c string) [
  | none ↦ if x == c then some 0 else none
  | some pos ↦ some (suc pos)
]

-- Whether a character stands at a position.
unfoldable pub is_at : List ℕ → ℕ → ℕ → Bool
is_at string pos c = elim (get_elem? string pos) [ none ↦ false | some x ↦ x == c ]

-- Whether the text in front of a position stands in brackets.
unfoldable pub is_bracketed : List ℕ → ℕ → Bool
is_bracketed string pos = leb 2 pos && (is_at string 0 91 && is_at string (pos - 1) 93)

-- The last colon, if a port may follow.
unfoldable pub colon : List ℕ → Option ℕ
colon string = elim (rfind 58 string) [
  | none ↦ none
  | some pos ↦ if pos + 1 == length string then none else some pos
]

abbrev pub uint16 : IntType
uint16 = record { bits = 16; is_signed = false }

-- A number that nothing follows.
unfoldable pub only : Option (ℕ × List ℕ) → Option ℕ
only none = none
only (some (port, [])) = some port
only (some (port, c ∷ rest)) = none

-- The port behind the colon.
unfoldable pub port_at : List ℕ → ℕ → Option ℕ
port_at string pos = only (consume_int uint16 (drop (pos + 1) string))
