-- ===== src/Net/Http/Client/Keys.antt =====
-- The pool of net/http/client.h: connections under a protocol, a host and a port.
use trunk.Prelude.{ℕ, List, [], ◌∷◌, Bool, true, false, ◌&&◌, ◌==◌, if◌then◌else◌}

pub data Protocol : Type 0 where
  http https_verify_none : Protocol

pub record ConnectionKey : Type 0 where
  pub protocol : Protocol
  pub host : List ℕ
  pub port : ℕ

unfoldable pub same_protocol : Protocol → Protocol → Bool
same_protocol http http = true
same_protocol http https_verify_none = false
same_protocol https_verify_none http = false
same_protocol https_verify_none https_verify_none = true

unfoldable pub same_host : List ℕ → List ℕ → Bool
same_host [] [] = true
same_host [] (b ∷ bs) = false
same_host (a ∷ xs) [] = false
same_host (a ∷ xs) (b ∷ bs) = a == b && same_host xs bs

-- `operator==`
unfoldable pub same_connection : ConnectionKey → ConnectionKey → Bool
same_connection a b =
    same_protocol a.protocol b.protocol && (same_host a.host b.host && a.port == b.port)

-- The pool: for each key the connections that wait for a request, the latest first.
abbrev pub Pool : Type 0
Pool = List (ConnectionKey × List ℕ)

-- `connections_.find`, where no entry is an empty list.
unfoldable pub find : ConnectionKey → Pool → List ℕ
find k [] = []
find k ((k', ids) ∷ pool) = if same_connection k' k then ids else find k pool

-- The list of a key put back; an empty one is erased.
unfoldable pub put : ConnectionKey → List ℕ → Pool → Pool
put k [] [] = []
put k (id ∷ ids) [] = (k, id ∷ ids) ∷ []
put k ids ((k', ids') ∷ pool) =
    let rest = put k ids pool in
    if same_connection k' k
    then elim ids [ [] ↦ pool | i ∷ is ↦ (k', i ∷ is) ∷ pool ]
    else (k', ids') ∷ rest

-- `list.erase`
unfoldable pub remove : ℕ → List ℕ → List ℕ
remove id [] = []
remove id (i ∷ ids) = if i == id then ids else i ∷ remove id ids
