-- ===== src/Net/Types/HostPort.antt =====
-- net/types/host-port.h and net/types/host-port.cc: a host and a port.
use trunk.Prelude.{ℕ, ◌-◌, List, ◌∷◌, ◌++◌, Option, some, true, false, if◌then◌else◌, take, drop}
use trunk.Prelude.Monad.{◌>>=◌}
use trunk.Net.Types.{Texts, is_bracketed, colon, port_at}
use trunk.Net.Types.Host
use trunk.Net.Types.Host.{Host, address, name}
use trunk.Net.Types.AddrPort.{address_port}

module _ (texts : Texts) where
  open texts use {str_cat}

  pub record HostPort : Type 0 where
    pub host : Host texts
    pub port : ℕ

  unfoldable pub to_string : HostPort → List ℕ
  to_string h = elim (h.host) [
    | address a ↦ address_port texts a h.port
    | name n ↦ n ++ 58 ∷ str_cat h.port
  ]

  -- The host in front of the colon.
  unfoldable pub host_at : List ℕ → ℕ → Option (Host texts)
  host_at string pos =
      if is_bracketed string pos
      then Host.from_string texts (take (pos - 2) (drop 1 string)) (some true)
      else Host.from_string texts (take pos string) (some false)

  unfoldable pub from_string : List ℕ → Option HostPort
  from_string string = do
    pos ← colon string
    host ← host_at string pos
    port ← port_at string pos
    some (record { host = host; port = port })
