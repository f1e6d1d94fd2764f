-- ===== src/Net/Types/Printed.antt =====
-- What is printed is read back: an address, a name or an address in front of a port.
use mathlib.Core.Option.{map}
use trunk.Prelude.{
  ℕ, ◌+◌, ◌-◌, ◌<◌, ◌≡◌, refl, ap, ap₂, sym, ◌∙◌, List, [], ◌∷◌, ◌++◌, append_assoc, Option, some,
  true, false, ◌||◌, ◌==◌, if_true, if_false, length, take, drop, All, length-append, arith,
}
use trunk.Prelude.Monad.{◌>>=◌}
use trunk.Util.Strings.{is_digit}
use trunk.Net.Types.{Texts, Address, v4, v6, is_bracketed, port_at}
use trunk.Net.Types.AddrPort
use trunk.Net.Types.AddrPort.{AddrPort, address_port, address_at}
use trunk.Net.Types.Text.{
  Without, colon-append, front-append, is_bracketed-brackets, is_bracketed-Without, str_cat-Without,
  port_at-str_cat,
}

dotted-Without :
    (string : List ℕ) → All (λ c. (is_digit c || c == 46) ≡ true) string → Without 91 string
unfolding is_digit
dotted-Without [] all = tt
dotted-Without (c ∷ string) (h, all) = (ground (arith, h), dotted-Without string all)

-- The text between the brackets.
pub inside-brackets :
    (inside behind : List ℕ)
    → take (length inside + 2 - 2) (drop 1 (91 ∷ inside ++ 93 ∷ behind)) ≡ inside
inside-brackets inside behind =
    ap (λ n. take n (inside ++ 93 ∷ behind)) (omega arith) ∙ front-append inside (93 ∷ behind)

-- Three results in turn.
pub in_turn :
    {A B : Type 0} (f : A → ℕ → B) (pos port : ℕ) (host : A) (at : Option ℕ) (hosts : ℕ → Option A)
    (ports : ℕ → Option ℕ)
    → at ≡ some pos
    → hosts pos ≡ some host
    → ports pos ≡ some port
    → (do pos ← at; host ← hosts pos; port ← ports pos; some (f host port)) ≡ some (f host port)
in_turn f pos port host at hosts ports e e' e'' = rw (e, e', e'') refl

module _ (texts : Texts) where
  open texts use {AddressV4, AddressV6, v4_to_string, v6_to_string, str_cat}

  -- In front of which text the port of an address stands.
  abbrev pub before_port : Address texts → List ℕ
  before_port (v4 a) = v4_to_string a
  before_port (v6 a) = 91 ∷ v6_to_string a ++ 93 ∷ []

  pub address_port-before_port :
      (a : Address texts) (port : ℕ)
      → address_port texts a port ≡ before_port a ++ 58 ∷ str_cat port
  unfolding address_port
  address_port-before_port (v4 a) port = refl
  address_port-before_port (v6 a) port =
      ap (λ text. 91 ∷ text) (sym (append_assoc (v6_to_string a) (93 ∷ []) (58 ∷ str_cat port)))

  pub v4-is_bracketed :
      (a : AddressV4) (port pos : ℕ)
      → is_bracketed (v4_to_string a ++ 58 ∷ str_cat port) pos ≡ false
  v4-is_bracketed a port pos =
      is_bracketed-Without (v4_to_string a) (str_cat port) pos
        (dotted-Without (v4_to_string a) (texts.v4_to_string-IsDotted a))

  v6_text :
      (a : AddressV6) (port : ℕ)
      → before_port (v6 a) ++ 58 ∷ str_cat port ≡ 91 ∷ v6_to_string a ++ 93 ∷ 58 ∷ str_cat port
  v6_text a port =
      ap (λ text. 91 ∷ text) (append_assoc (v6_to_string a) (93 ∷ []) (58 ∷ str_cat port))

  v6_length : (a : AddressV6) → length (before_port (v6 a)) ≡ length (v6_to_string a) + 2
  v6_length a = omega (arith, length-append (v6_to_string a) (93 ∷ []))

  pub v6-is_bracketed :
      (a : AddressV6) (port : ℕ)
      → is_bracketed (before_port (v6 a) ++ 58 ∷ str_cat port) (length (before_port (v6 a))) ≡ true
  v6-is_bracketed a port =
      ap₂ is_bracketed (v6_text a port) (v6_length a)
      ∙ is_bracketed-brackets (v6_to_string a) (58 ∷ str_cat port)

  pub v6_inside :
      (a : AddressV6) (port : ℕ)
      → take (length (before_port (v6 a)) - 2) (drop 1 (before_port (v6 a) ++ 58 ∷ str_cat port))
        ≡ v6_to_string a
  v6_inside a port =
      ap₂ (λ n text. take (n - 2) (drop 1 text)) (v6_length a) (v6_text a port)
      ∙ inside-brackets (v6_to_string a) (58 ∷ str_cat port)

  address_at-before_port :
      (a : Address texts) (port : ℕ)
      → address_at texts (before_port a ++ 58 ∷ str_cat port) (length (before_port a)) ≡ some a
  unfolding address_at
  address_at-before_port (v4 a) port =
      if_false _ _ _ (v4-is_bracketed a port (length (v4_to_string a)))
      ∙ ap (λ text. map v4 (texts.make_address_v4 text))
          (front-append (v4_to_string a) (58 ∷ str_cat port))
      ∙ ap (map v4) (texts.make_address_v4-v4_to_string a)
  address_at-before_port (v6 a) port =
      if_true _ _ _ (v6-is_bracketed a port)
      ∙ ap (λ text. map v6 (texts.make_address_v6 text)) (v6_inside a port)
      ∙ ap (map v6) (texts.make_address_v6-v6_to_string a)

  -- An address and a port of 16 bits are read back from what is printed of them.
  pub from_string-to_string :
      (a : AddrPort texts)
      → a.port < 65536
      → AddrPort.from_string texts (AddrPort.to_string texts a) ≡ some a
  unfolding AddrPort.from_string AddrPort.to_string
  from_string-to_string a h =
      ap (AddrPort.from_string texts) (address_port-before_port a.address a.port)
      ∙ in_turn (λ address port. record { address = address; port = port })
          (length (before_port a.address)) a.port a.address _
          (address_at texts (before_port a.address ++ 58 ∷ str_cat a.port))
          (port_at (before_port a.address ++ 58 ∷ str_cat a.port))
          (colon-append (before_port a.address) (str_cat a.port) (str_cat-Without texts a.port)
            (texts.length-str_cat a.port))
          (address_at-before_port a.address a.port)
          (port_at-str_cat texts (before_port a.address) a.port h)
