-- ===== src/Net/Rpc/Wire.antt =====
-- net/rpc/wire-structs.h: the packed headers of requests and responses, which are alike.
use trunk.Prelude.{ℕ, bit_and, List, [], ◌∷◌, ◌++◌, Bool, not, ◌==◌, take, drop}
use trunk.Prelude.Endian.{store, load}

pub record Header : Type 0 where
  pub key_fingerprint : ℕ
  pub request_id : ℕ
  pub offset : ℕ
  pub unused : ℕ
  pub flags : ℕ

-- `sizeof(Header)`
abbrev pub header_size : ℕ
header_size = 24

-- `flags::partial`
abbrev pub partial : ℕ
partial = 1

-- The bytes of a header in memory.
unfoldable pub to_bytes : Header → List ℕ
to_bytes h =
    store 8 h.key_fingerprint
    ++ (store 8 h.request_id ++ (store 2 h.offset ++ (store 2 h.unused ++ store 4 h.flags)))

-- The header that the bytes of a datagram begin with, and what follows it.
unfoldable pub from_bytes : List ℕ → Header
from_bytes bytes = record {
  key_fingerprint = load (take 8 bytes);
  request_id = load (take 8 (drop 8 bytes));
  offset = load (take 2 (drop 16 bytes));
  unused = load (take 2 (drop 18 bytes));
  flags = load (take 4 (drop 20 bytes));
}

abbrev pub body : List ℕ → List ℕ
body bytes = drop header_size bytes

unfoldable pub is_partial : Header → Bool
is_partial h = not (bit_and h.flags partial == 0)

-- The nonce of a fragment: the identity of the request, the offset, and who sends it.
unfoldable pub nonce : ℕ → ℕ → ℕ → List ℕ
nonce request_id offset direction = store 8 request_id ++ (store 2 offset ++ (0 ∷ direction ∷ []))
