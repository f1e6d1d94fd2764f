-- ===== src/Net/Types/Host.antt =====
-- net/types/host.h and net/types/host.cc: an address, or a name.
use trunk.Prelude.{
  ℕ, List, [], ◌∷◌, Option, none, some, Bool, true, false, ◌||◌, ◌==◌, if◌then◌else◌,
}
use mathlib.Core.Option.{map}
use trunk.Net.Types.{Texts, Address, v4, v6, address_to_string, either}

-- "@#$%^&*()+={}[]|\:;"'<>,?/~ "
abbrev pub specials : List ℕ
specials =
    64 ∷ 35 ∷ 36 ∷ 37 ∷ 94 ∷ 38 ∷ 42 ∷ 40 ∷ 41 ∷ 43 ∷ 61 ∷ 123 ∷ 125 ∷ 91 ∷ 93 ∷ 124 ∷ 92 ∷ 58 ∷ 59
    ∷ 34 ∷ 39 ∷ 60 ∷ 62 ∷ 44 ∷ 63 ∷ 47 ∷ 126 ∷ 32 ∷ []

unfoldable pub is_one_of : ℕ → List ℕ → Bool
is_one_of c [] = false
is_one_of c (x ∷ xs) = c == x || is_one_of c xs

-- `find_first_of` finds something.
unfoldable pub has_special : List ℕ → Bool
has_special [] = false
has_special (c ∷ string) = is_one_of c specials || has_special string

module _ (texts : Texts) where
  open texts use {make_address, make_address_v4, make_address_v6}

  pub data Host : Type 0 where
    address : Address texts → Host
    name : List ℕ → Host

  unfoldable pub to_string : Host → List ℕ
  to_string (address a) = address_to_string texts a
  to_string (name n) = n

  -- What is no address is a name, if it has no special character.
  unfoldable pub name_from_string : List ℕ → Option Host
  name_from_string string = if has_special string then none else some (name string)

  unfoldable pub or_name : Option (Address texts) → List ℕ → Option Host
  or_name (some a) string = some (address a)
  or_name none string = name_from_string string

  -- `from_string`; `some true` wants an address of version 6, `some false` takes one of version 4 or
  -- a name.
  unfoldable pub from_string : List ℕ → Option Bool → Option Host
  from_string [] address_v6_only = none
  from_string (c ∷ string) none =
      or_name (map (either texts) (make_address (c ∷ string))) (c ∷ string)
  from_string (c ∷ string) (some false) =
      or_name (map v4 (make_address_v4 (c ∷ string))) (c ∷ string)
  from_string (c ∷ string) (some true) = map (λ a. address (v6 a)) (make_address_v6 (c ∷ string))
