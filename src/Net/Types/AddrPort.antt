-- ===== src/Net/Types/AddrPort.antt =====
-- net/types/addr-port.h and net/types/addr-port.cc: an address and a port.
use trunk.Prelude.{ℕ, ◌-◌, List, ◌∷◌, ◌++◌, Option, some, if◌then◌else◌, take, drop}
use trunk.Prelude.Monad.{◌>>=◌}
use mathlib.Core.Option.{map}
use trunk.Net.Types.{Texts, Address, v4, v6, is_bracketed, colon, port_at}

module _ (texts : Texts) where
  open texts use {make_address_v4, make_address_v6, v4_to_string, v6_to_string, str_cat}

  pub record AddrPort : Type 0 where
    pub address : Address texts
    pub port : ℕ

  unfoldable pub address_port : Address texts → ℕ → List ℕ
  address_port (v4 a) port = v4_to_string a ++ 58 ∷ str_cat port
  address_port (v6 a) port = 91 ∷ v6_to_string a ++ 93 ∷ 58 ∷ str_cat port

  unfoldable pub to_string : AddrPort → List ℕ
  to_string a = address_port a.address a.port

  -- The address in front of the colon.
  unfoldable pub address_at : List ℕ → ℕ → Option (Address texts)
  address_at string pos =
      if is_bracketed string pos
      then map v6 (make_address_v6 (take (pos - 2) (drop 1 string)))
      else map v4 (make_address_v4 (take pos string))

  unfoldable pub from_string : List ℕ → Option AddrPort
  from_string string = do
    pos ← colon string
    address ← address_at string pos
    port ← port_at string pos
    some (record { address = address; port = port })
