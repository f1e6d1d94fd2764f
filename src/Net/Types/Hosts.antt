-- ===== src/Net/Types/Hosts.antt =====
-- What a host and a port that are read stand for is printed so that they are read back.
use mathlib.Core.Option.{map}
use mathlib.Core.Option.{some-injective}
use trunk.Prelude.{
  ℕ, ◌+◌, ◌-◌, ◌%◌, ◌^◌, ◌*◌, ◌<◌, ◌≡◌, refl, ap, sym, subst, ◌∙◌, List, [], ◌∷◌, ◌++◌, Option,
  none, some, Option-cases, Bool, true, false, Bool-cases, ◌==◌, if_true, if_false, inl, inr,
  length, drop, All, arith,
}
use trunk.Prelude.Monad.{◌>>=◌, bind_some}
use trunk.Util.Strings.{overflows, consume_loop, negated, consume_int}
use trunk.Net.Types.{Texts, v4, v6, is_bracketed, colon, port_at, only, uint16}
use trunk.Net.Types.Host
use trunk.Net.Types.Host.{
  Host, address, name, is_one_of, has_special, specials, or_name, name_from_string,
}
use trunk.Net.Types.HostPort
use trunk.Net.Types.HostPort.{HostPort, host_at}
use trunk.Net.Types.Text.{
  Without, colon-append, front-append, is_bracketed-Without, str_cat-Without, port_at-str_cat,
}
use trunk.Net.Types.Printed.{
  before_port, address_port-before_port, v4-is_bracketed, v6-is_bracketed, v6_inside, in_turn,
}

not_one_of : (c : ℕ) (xs : List ℕ) → is_one_of c xs ≡ false → All (λ x. (c == x) ≡ false) xs
unfolding is_one_of
not_one_of c [] h = tt
not_one_of c (x ∷ xs) h = (ground (arith, h), not_one_of c xs (ground (arith, h)))

-- No special character is a bracket.
has_special-Without : (string : List ℕ) → has_special string ≡ false → Without 91 string
unfolding has_special
has_special-Without [] h = tt
has_special-Without (c ∷ string) h = (bracket, has_special-Without string (ground (arith, h)))
  where
    bracket : (c == 91) ≡ false
    bracket =
        let (_, (_, (_, (_, (_, (_, (_, (_, (_, (_, (_, (_, (_, (differs, _)))))))))))))) =
          not_one_of c specials (ground (arith, h)) in
        differs

module _ (texts : Texts) where
  open texts use {AddressV4, AddressV6, v4_to_string, v6_to_string, str_cat, make_address_v4}

  -- A host that `from_string` gives: an address, or what is no address of version 4, is not empty
  -- and has no special character.
  abbrev pub IsHost : Host texts → Type 0
  IsHost (address a) = Unit
  IsHost (name n) = (0 < length n) × (has_special n ≡ false) × (make_address_v4 n ≡ none)

  abbrev before : Host texts → List ℕ
  before (address a) = before_port texts a
  before (name n) = n

  to_string-before :
      (h : HostPort texts) → HostPort.to_string texts h ≡ before h.host ++ 58 ∷ str_cat h.port
  unfolding HostPort.to_string
  to_string-before h = by_host h.host
    where
      by_host :
          (host : Host texts)
          → HostPort.to_string texts (record { host = host; port = h.port })
            ≡ before host ++ 58 ∷ str_cat h.port
      by_host (address a) = address_port-before_port texts a h.port
      by_host (name n) = refl

  -- From a text that is not empty.
  from_string-v4 :
      (string : List ℕ) (a : Option (AddressV4)) (h : Host texts)
      → 0 < length string
      → make_address_v4 string ≡ a
      → or_name texts (map v4 a) string ≡ some h
      → Host.from_string texts string (some false) ≡ some h
  unfolding Host.from_string
  from_string-v4 [] a h long e e' = absurd (omega arith)
  from_string-v4 (c ∷ string) a h long e e' = ap (λ o. or_name texts (map v4 o) (c ∷ string)) e ∙ e'

  from_string-v6 :
      (string : List ℕ) (a : AddressV6)
      → 0 < length string
      → texts.make_address_v6 string ≡ some a
      → Host.from_string texts string (some true) ≡ some (address (v6 a))
  unfolding Host.from_string
  from_string-v6 [] a long e = absurd (omega arith)
  from_string-v6 (c ∷ string) a long e = ap (map (λ a. address (v6 a))) e

  host_at-before :
      (host : Host texts) (port : ℕ)
      → IsHost host
      → host_at texts (before host ++ 58 ∷ str_cat port) (length (before host)) ≡ some host
  unfolding host_at or_name name_from_string
  host_at-before (address (v4 a)) port is =
      if_false _ _ _ (v4-is_bracketed texts a port (length (v4_to_string a)))
      ∙ ap (λ text. Host.from_string texts text (some false))
          (front-append (v4_to_string a) (58 ∷ str_cat port))
      ∙ from_string-v4 (v4_to_string a) (some a) (address (v4 a)) (texts.length-v4_to_string a)
          (texts.make_address_v4-v4_to_string a) refl
  host_at-before (address (v6 a)) port is =
      if_true _ _ _ (v6-is_bracketed texts a port)
      ∙ ap (λ text. Host.from_string texts text (some true)) (v6_inside texts a port)
      ∙ from_string-v6 (v6_to_string a) a (texts.length-v6_to_string a)
          (texts.make_address_v6-v6_to_string a)
  host_at-before (name n) port (long, plain, no_address) =
      if_false _ _ _
        (is_bracketed-Without n (str_cat port) (length n) (has_special-Without n plain))
      ∙ ap (λ text. Host.from_string texts text (some false)) (front-append n (58 ∷ str_cat port))
      ∙ from_string-v4 n none (name n) long no_address (if_false _ _ _ plain)

  -- A host and a port of 16 bits are read back from what is printed of them.
  host_port_lem :
      (h : HostPort texts)
      → IsHost h.host
      → h.port < 65536
      → HostPort.from_string texts (HostPort.to_string texts h) ≡ some h
  unfolding HostPort.from_string
  host_port_lem h is small =
      ap (HostPort.from_string texts) (to_string-before h)
      ∙ in_turn (λ host port. record { host = host; port = port }) (length (before h.host)) h.port
          h.host _ (host_at texts (before h.host ++ 58 ∷ str_cat h.port))
          (port_at (before h.host ++ 58 ∷ str_cat h.port))
          (colon-append (before h.host) (str_cat h.port) (str_cat-Without texts h.port)
            (texts.length-str_cat h.port))
          (host_at-before h.host h.port is) (port_at-str_cat texts (before h.host) h.port small)

  name_given :
      (c : ℕ) (string : List ℕ) (h : Host texts)
      → or_name texts (map v4 (make_address_v4 (c ∷ string))) (c ∷ string) ≡ some h
      → IsHost h
  unfolding or_name name_from_string
  name_given c string h e = elim (Option-cases (make_address_v4 (c ∷ string))) [
    | inr (a, found) ↦
        let is : ◌≡◌ {A = Option (Host texts)} (some (address (v4 a))) (some h) =
          sym (ap (λ o. or_name texts (map v4 o) (c ∷ string)) found) ∙ e in
        subst IsHost (some-injective _ _ is) tt
    | inl nothing ↦ elim (Bool-cases (has_special (c ∷ string))) [
      | inl special ↦ absurd (ground (arith, e, nothing, special))
      | inr plain ↦
          let is : ◌≡◌ {A = Option (Host texts)} (some (name (c ∷ string))) (some h) =
            sym (ap (λ o. or_name texts (map v4 o) (c ∷ string)) nothing ∙ if_false _ _ _ plain)
            ∙ e in
          subst IsHost (some-injective _ _ is) (omega arith, plain, nothing)
    ]
  ]

  host_given :
      (string : List ℕ) (v6_only : Bool) (h : Host texts)
      → Host.from_string texts string (some v6_only) ≡ some h
      → IsHost h
  unfolding Host.from_string
  host_given [] v6_only h e = absurd (cc e)
  host_given (c ∷ string) false h e = name_given c string h e
  host_given (c ∷ string) true h e = elim (Option-cases (texts.make_address_v6 (c ∷ string))) [
    | inl nothing ↦ absurd (ground (arith, e, nothing))
    | inr (a, found) ↦
        let is : ◌≡◌ {A = Option (Host texts)} (some (address (v6 a))) (some h) =
          sym (ap (map (λ a. address (v6 a))) found) ∙ e in
        subst IsHost (some-injective _ _ is) tt
  ]

  host_at-IsHost :
      (string : List ℕ) (pos : ℕ) (h : Host texts) → host_at texts string pos ≡ some h → IsHost h
  unfolding host_at
  host_at-IsHost string pos h e = elim (Bool-cases (is_bracketed string pos)) [
    | inl inside ↦ host_given _ true h (sym (if_true _ _ _ inside) ∙ e)
    | inr outside ↦ host_given _ false h (sym (if_false _ _ _ outside) ∙ e)
  ]

-- A number of 16 bits is consumed.
consume_loop_lt :
    (input : List ℕ) (result : ℕ) (r : ℕ × List ℕ)
    → result < 65536
    → consume_loop uint16 input result ≡ some r
    → r.0 < 65536
unfolding consume_loop overflows
consume_loop_lt [] result r h e = ground (arith, e)
consume_loop_lt (c ∷ input) result r h e =
    ground (arith, e, consume_loop_lt input ((result * 10 + (c - 48)) % 2 ^ 16) r (omega arith))

consume_int_lt : (input : List ℕ) (r : ℕ × List ℕ) → consume_int uint16 input ≡ some r → r.0 < 65536
unfolding consume_int negated
consume_int_lt [] r e = consume_loop_lt [] 0 r (omega arith) e
consume_int_lt (c ∷ input) r e = elim (Bool-cases (c == 45)) [
  | inl minus ↦
      let (a, _, is) =
        bind_some (consume_loop uint16 input 0) (negated uint16) r
          (sym (if_true _ _ _ minus) ∙ e) in
      subst (λ q. q.0 < 65536) is (omega arith)
  | inr plus ↦ consume_loop_lt (c ∷ input) 0 r (omega arith) (sym (if_false _ _ _ plus) ∙ e)
]

only_lem : (n port : ℕ) (rest : List ℕ) → only (some (n, rest)) ≡ some port → n ≡ port
unfolding only
only_lem n port [] e = some-injective _ _ e
only_lem n port (c ∷ rest) e = absurd (cc e)

port_at_lt : (string : List ℕ) (pos port : ℕ) → port_at string pos ≡ some port → port < 65536
unfolding port_at only
port_at_lt string pos port e = elim (Option-cases (consume_int uint16 (drop (pos + 1) string))) [
  | inl overflow ↦ absurd (cc (sym (ap only overflow) ∙ e))
  | inr ((n, rest), found) ↦
      subst (λ p. p < 65536) (only_lem n port rest (sym (ap only found) ∙ e))
        (consume_int_lt _ (n, rest) found)
]

-- Three steps that end well.
each_turn :
    {A B : Type 0} (f : A → ℕ → B) (at : Option ℕ) (hosts : ℕ → Option A) (ports : ℕ → Option ℕ)
    (b : B)
    → (do pos ← at; host ← hosts pos; port ← ports pos; some (f host port)) ≡ some b
    → (pos : ℕ) × (host : A) × (port : ℕ) × (hosts pos ≡ some host)
      × (ports pos ≡ some port)
      × (f host port ≡ b)
each_turn f none hosts ports b e = absurd (cc e)
each_turn f (some pos) hosts ports b e = elim (Option-cases (hosts pos)) [
  | inl nothing ↦
      absurd
        (cc (sym (ap (λ o. o >>= λ host. ports pos >>= λ port. some (f host port)) nothing) ∙ e))
  | inr (host, found) ↦
      let rest = sym (ap (λ o. o >>= λ host. ports pos >>= λ port. some (f host port)) found) ∙ e in
      let (port, found', is) = bind_some (ports pos) (f host) b rest in
      (pos, host, port, found, found', is)
]

-- Whatever text a host and a port have been read from, they are read back from what is printed of
-- them: printing brings a text into its normal form.
pub from_string-to_string_host :
    (texts : Texts) (string : List ℕ) (h : HostPort texts)
    → HostPort.from_string texts string ≡ some h
    → HostPort.from_string texts (HostPort.to_string texts h) ≡ some h
unfolding HostPort.from_string
from_string-to_string_host texts string h e =
    let (pos, host, port, at, at', is) =
      each_turn (λ host port. record { host = host; port = port }) (colon string)
        (host_at texts string) (port_at string) h e in
    host_port_lem texts h
      (subst (λ q. IsHost texts q.host) is (host_at-IsHost texts string pos host at))
      (subst (λ q. q.port < 65536) is (port_at_lt string pos port at'))
