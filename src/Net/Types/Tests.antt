-- ===== src/Net/Types/Tests.antt =====
-- Hosts and ports over two addresses of each version.
use native.Mathlib.Nat.{pow-suc}
use trunk.Prelude.{
  ℕ, zero, suc, ◌+◌, ◌-◌, ◌*◌, ◌/◌, ◌%◌, ◌^◌, ◌≤◌, ◌<◌, ◌≡◌, refl, ap, List, [], ◌∷◌, ◌++◌, Option,
  none, some, Bool, true, false, Bool-cases, ◌&&◌, ◌||◌, ◌==◌, ltb, if◌then◌else◌, ◌⊎◌, inl, inr,
  length, All, All-append, length-append, arith,
}
use trunk.Util.Strings.{is_digit, consume_int, consume_loop, overflows}
use trunk.Util.Strings.Decimal.{number}
use trunk.Net.Types.{Texts, v6, rfind, is_at, is_bracketed, colon, only, port_at}
use trunk.Net.Types.Host
use trunk.Net.Types.Host.{name, or_name, name_from_string, is_one_of, has_special}
use trunk.Net.Types.AddrPort
use trunk.Net.Types.AddrPort.{AddrPort, address_port, address_at}
use trunk.Net.Types.HostPort
use trunk.Net.Types.HostPort.{HostPort, host_at}
use trunk.Net.Types.Printed.{from_string-to_string}
use trunk.Net.Types.Hosts.{from_string-to_string_host}

-- The decimal digits of a number.
abbrev digits : ℕ → ℕ → List ℕ
digits zero n = 48 ∷ []
digits (suc fuel) n =
    let rest = digits fuel (n / 10) in
    if ltb n 10 then (48 + n) ∷ [] else rest ++ (48 + n % 10) ∷ []

digits-IsDigits : (fuel n : ℕ) → All (λ c. is_digit c ≡ true) (digits fuel n)
unfolding is_digit
digits-IsDigits zero n = (refl, tt)
digits-IsDigits (suc fuel) n = elim (Bool-cases (ltb n 10)) [
  | inl small ↦ rw small (ground (arith, small), tt)
  | inr large ↦ rw large (
      All-append (λ c. is_digit c ≡ true) (digits fuel (n / 10)) _ (digits-IsDigits fuel (n / 10))
        (ground arith, tt))
]

length-digits : (fuel n : ℕ) → 0 < length (digits fuel n)
length-digits zero n = omega arith
length-digits (suc fuel) n = elim (Bool-cases (ltb n 10)) [
  | inl small ↦ rw small (omega arith)
  | inr large ↦ rw large (omega (arith, length-append (digits fuel (n / 10)) ((48 + n % 10) ∷ [])))
]

number-append : (xs : List ℕ) (c : ℕ) → number (xs ++ c ∷ []) ≡ number xs * 10 + (c - 48)
number-append [] c = omega arith
number-append (x ∷ xs) c = omega (
  arith,
  number-append xs c,
  ap (λ n. (x - 48) * 10 ^ n) (length-append xs (c ∷ [])),
  ap (λ n. (x - 48) * 10 ^ n) one_more,
  ap (λ (t : ℕ). (x - 48) * t) (pow-suc 10 (length xs)),
)
  where
    one_more : length xs + 1 ≡ suc (length xs)
    one_more = omega arith

number-digits : (fuel n : ℕ) → n ≤ fuel → number (digits fuel n) ≡ n
number-digits zero n h = omega arith
number-digits (suc fuel) n h = elim (Bool-cases (ltb n 10)) [
  | inl small ↦ rw small (omega arith)
  | inr large ↦ rw large (
      omega (
        arith,
        number-append (digits fuel (n / 10)) (48 + n % 10),
        number-digits fuel (n / 10) (ground (arith, large)),
      ))
]

abbrev same : List ℕ → List ℕ → Bool
same [] [] = true
same [] (b ∷ ys) = false
same (a ∷ xs) [] = false
same (a ∷ xs) (b ∷ ys) = a == b && same xs ys

-- Any address, and the loopback.
data Host4 : Type 0 where
  any4 loopback4 : Host4

data Host6 : Type 0 where
  any6 loopback6 : Host6

-- "0.0.0.0", "127.0.0.1"
abbrev text4 : Host4 → List ℕ
text4 any4 = 48 ∷ 46 ∷ 48 ∷ 46 ∷ 48 ∷ 46 ∷ 48 ∷ []
text4 loopback4 = 49 ∷ 50 ∷ 55 ∷ 46 ∷ 48 ∷ 46 ∷ 48 ∷ 46 ∷ 49 ∷ []

-- "::", "::1"
abbrev text6 : Host6 → List ℕ
text6 any6 = 58 ∷ 58 ∷ []
text6 loopback6 = 58 ∷ 58 ∷ 49 ∷ []

abbrev make4 : List ℕ → Option Host4
make4 text =
    if same text (text4 any4)
    then some any4
    else if same text (text4 loopback4)
    then some loopback4
    else none

abbrev make6 : List ℕ → Option Host6
make6 text =
    if same text (text6 any6)
    then some any6
    else if same text (text6 loopback6)
    then some loopback6
    else none

abbrev make : List ℕ → Option (Host4 ⊎ Host6)
make text = elim (make4 text) [
  | some a ↦ some (inl a)
  | none ↦ elim (make6 text) [ some a ↦ some (inr a) | none ↦ none ]
]

text4-IsDotted : (a : Host4) → All (λ c. (is_digit c || c == 46) ≡ true) (text4 a)
unfolding is_digit
text4-IsDotted any4 = (refl, (refl, (refl, (refl, (refl, (refl, (refl, tt)))))))
text4-IsDotted loopback4 =
    (refl, (refl, (refl, (refl, (refl, (refl, (refl, (refl, (refl, tt)))))))))

abbrev hosts : Texts
hosts = record {
  AddressV4 = Host4;
  AddressV6 = Host6;
  make_address_v4 = make4;
  make_address_v6 = make6;
  make_address = make;
  v4_to_string = text4;
  v6_to_string = text6;
  str_cat = λ n. digits n n;
  make_address_v4-v4_to_string =
      λ a. elim a as (λ k. make4 (text4 k) ≡ some k) [ any4 ↦ refl | loopback4 ↦ refl ];
  make_address_v6-v6_to_string =
      λ a. elim a as (λ k. make6 (text6 k) ≡ some k) [ any6 ↦ refl | loopback6 ↦ refl ];
  make_address-v4_to_string =
      λ a. elim a as (λ k. make (text4 k) ≡ some (inl k)) [ any4 ↦ refl | loopback4 ↦ refl ];
  make_address-v6_to_string =
      λ a. elim a as (λ k. make (text6 k) ≡ some (inr k)) [ any6 ↦ refl | loopback6 ↦ refl ];
  v4_to_string-IsDotted = text4-IsDotted;
  length-v4_to_string =
      λ a. elim a as (λ k. 0 < length (text4 k)) [ any4 ↦ omega arith | loopback4 ↦ omega arith ];
  length-v6_to_string =
      λ a. elim a as (λ k. 0 < length (text6 k)) [ any6 ↦ omega arith | loopback6 ↦ omega arith ];
  str_cat-IsDigits = λ n. digits-IsDigits n n;
  length-str_cat = λ n. length-digits n n;
  number-str_cat = λ n. number-digits n n (omega arith);
}

-- "ab:080"
abbrev text : List ℕ
text = 97 ∷ 98 ∷ 58 ∷ 48 ∷ 56 ∷ 48 ∷ []

read_text :
    HostPort.from_string hosts text ≡ some (record { host = name (97 ∷ 98 ∷ []); port = 80 })
unfolding HostPort.from_string host_at port_at only colon rfind is_bracketed is_at Host.from_string
    or_name name_from_string has_special is_one_of consume_int consume_loop overflows is_digit
read_text = refl

-- "ab:65616": a port out of range is taken modulo 2 ^ 16.
wrapped :
    HostPort.from_string hosts (97 ∷ 98 ∷ 58 ∷ 54 ∷ 53 ∷ 54 ∷ 49 ∷ 54 ∷ [])
    ≡ some (record { host = name (97 ∷ 98 ∷ []); port = 80 })
unfolding HostPort.from_string host_at port_at only colon rfind is_bracketed is_at Host.from_string
    or_name name_from_string has_special is_one_of consume_int consume_loop overflows is_digit
wrapped = refl

from_string-to_string_example :
    AddrPort.from_string hosts
      (AddrPort.to_string hosts (record { address = v6 loopback6; port = 80 }))
    ≡ some (record { address = v6 loopback6; port = 80 })
from_string-to_string_example =
    from_string-to_string hosts (record { address = v6 loopback6; port = 80 }) (omega arith)

from_string-to_string_host_example :
    HostPort.from_string hosts
      (HostPort.to_string hosts (record { host = name (97 ∷ 98 ∷ []); port = 80 }))
    ≡ some (record { host = name (97 ∷ 98 ∷ []); port = 80 })
from_string-to_string_host_example =
    from_string-to_string_host hosts text (record { host = name (97 ∷ 98 ∷ []); port = 80 })
      read_text
