-- ===== src/Net/Rpc/Server.antt =====
-- net/rpc/server.h and net/rpc/server.cc: the answers to calls.
-- An operation lives in the map from its first datagram on, while the timer that keeps it, its
-- handler or a socket hold on to it. A handler is called by an Effect, and answers by `respond_with`.
pub mod Receive
pub mod AnyOrder
pub mod Method
mod Tests
use trunk.Prelude.{
  ℕ, zero, suc, ◌+◌, ◌-◌, List, [], ◌∷◌, ◌++◌, map, Option, none, some, Bool, true, false, not,
  ◌&&◌, ◌||◌, ltb, ◌==◌, if◌then◌else◌, length, take, drop,
}
use trunk.Prelude.Monad.{◌>>=◌}
use trunk.Prelude.Result.{Errc, operation_canceled}
use trunk.Security.Key.{Cipher, Key, decrypt}
use trunk.Security.Keystore
use trunk.Security.Keystore.{Keystore}
use trunk.Net.Rpc.Wire.{Header, header_size, from_bytes, body, is_partial, nonce}
use trunk.Net.Rpc.Fragments.{Sending, pack}
use trunk.Net.Rpc.Assembly.{IntervalSet, Assembly, new_assembly, write, mark, is_complete}
use trunk.Net.Rpc.OperationKey.{OperationKey, find, assign, erase}

pub data Effect : Type 0 where
  -- `async_send_to` to an endpoint
  send_to : ℕ → List ℕ → Effect
  -- a handler's call: its name, the request and the key
  call : List ℕ → List ℕ → Key → Effect

-- Equality of `std::string_view`.
unfoldable pub same_text : List ℕ → List ℕ → Bool
same_text [] [] = true
same_text [] (b ∷ bs) = false
same_text (a ∷ xs) [] = false
same_text (a ∷ xs) (b ∷ bs) = a == b && same_text xs bs

unfoldable pub has_handler : List ℕ → List (List ℕ) → Bool
has_handler name [] = false
has_handler name (n ∷ names) = same_text n name || has_handler name names

-- `handle` of the server: a name that is there already keeps its handler.
unfoldable pub add_handler : List ℕ → List (List ℕ) → List (List ℕ)
add_handler name names = if has_handler name names then names else name ∷ names

-- The byte that a pointer into the bytes points to.
abbrev pub first : List ℕ → ℕ
first [] = 0
first (b ∷ bs) = b

-- The loop that looks back for a zero: how far in front of `end` it stops.
unfoldable pub back_to_zero : List ℕ → ℕ → ℕ
back_to_zero bytes zero = zero
back_to_zero bytes (suc request_end) =
    let further = back_to_zero bytes request_end in
    if first (drop request_end bytes) == 0 then suc request_end else further

-- The method behind the last zero, and the request in front of it.
unfoldable pub method_of : List ℕ → ℕ → List ℕ
method_of bytes size = drop (back_to_zero bytes size) (take size bytes)

unfoldable pub request_of : List ℕ → ℕ → List ℕ
request_of bytes size = take (back_to_zero bytes size - 1) bytes

module _ (cipher : Cipher) (sets : IntervalSet) where
  pub record Operation : Type 0 where
    pub client_endpoint : ℕ
    pub key_fingerprint : ℕ
    pub request_id : ℕ
    pub key : Option Key
    pub request : Assembly sets
    pub response_buffers : List (List ℕ)

  pub record Server : Type 0 where
    pub send_fragment_size : ℕ
    -- the names of the handlers
    pub handlers : List (List ℕ)
    pub keystore : Keystore
    pub operations : List (OperationKey × Operation)

  -- `handle` and `add_key` of the server.
  unfoldable pub handle_name : List ℕ → Server → Server
  handle_name name s = record s { handlers = add_handler name s.handlers }

  unfoldable pub add_key : Key → Server → Server
  add_key key s = record s { keystore = Keystore.add cipher key s.keystore }

  -- The constructor of the server, with "ping", "list" and the key of zeros.
  unfoldable pub new_server : ℕ → Key → Server
  new_server send_fragment_size zero_key = add_key zero_key (
      handle_name (108 ∷ 105 ∷ 115 ∷ 116 ∷ []) (
        handle_name (112 ∷ 105 ∷ 110 ∷ 103 ∷ []) (record {
          send_fragment_size = send_fragment_size;
          handlers = [];
          keystore = [];
          operations = [];
        })))

  unfoldable pub new_operation : ℕ → OperationKey → Operation
  new_operation endpoint k = record {
    client_endpoint = endpoint;
    key_fingerprint = k.key_fingerprint;
    request_id = k.request_id;
    key = none;
    request = new_assembly sets;
    response_buffers = [];
  }

  unfoldable pub respond : Operation → List Effect
  respond o = map (send_to o.client_endpoint) o.response_buffers

  -- `handle` of an operation. The handler takes the request away.
  unfoldable pub handle : List (List ℕ) → Key → Operation → Operation × List Effect
  handle handlers key o =
      let method = method_of o.request.bytes o.request.size in
      let request = request_of o.request.bytes o.request.size in
      if has_handler method handlers
      then (record o { request = record (o.request) { bytes = [] } }, call method request key ∷ [])
      else (o, [])

  -- `unpack` once the body has been opened under a key.
  unfoldable pub opened :
      List (List ℕ) → Operation → Key → Header → ℕ → List ℕ → Operation × List Effect
  opened handlers o key header body_size text =
      let o' = record o {
        key = some key;
        request = write sets header.offset body_size text o.request;
      } in
      let marked = record o' {
        request = mark sets header.offset (length text) (is_partial header) o'.request;
      } in
      if is_complete sets o.request
      then (o', if is_partial header then [] else respond o')
      else if is_complete sets marked.request
      then handle handlers key marked
      else (marked, [])

  abbrev pub Tried : Type 0
  Tried = Option (Key × List ℕ) × Assembly sets

  -- After one key of the loop: its text, or what the keys behind it give.
  unfoldable pub opened_or : Key → Assembly sets → Tried → Option (List ℕ) → Tried
  opened_or key a rest (some plain) = (some (key, plain), a)
  opened_or key a rest none = rest

  -- The loop over the keys of the fingerprint. Each refusal leaves its bytes behind.
  unfoldable pub try_keys : List ℕ → List ℕ → Header → List Key → Assembly sets → Tried
  try_keys n text header [] a = (none, a)
  try_keys n text header (key ∷ keys) a =
      let refused = cipher.aead_refused key n text in
      let rest = try_keys n text header keys (write sets header.offset (length text) refused a) in
      opened_or key a rest (decrypt cipher key n text)

  -- The key of the operation, or those of the keystore.
  unfoldable pub keys_for : Option Key → List Key → List Key
  keys_for (some key) found = key ∷ []
  keys_for none found = found

  -- `unpack` after the loop; without a key that opens the body, only the bytes of the refusals are
  -- left.
  unfoldable pub tried : List (List ℕ) → Operation → Header → ℕ → Tried → Operation × List Effect
  tried handlers o header body_size (none, request) = (record o { request = request }, [])
  tried handlers o header body_size (some (key, plain), request) =
      opened handlers (record o { request = request }) key header body_size plain

  unfoldable pub unpack : List (List ℕ) → Keystore → Operation → List ℕ → Operation × List Effect
  unpack handlers keystore o datagram =
      let header = from_bytes datagram in
      tried handlers o header (length (body datagram)) (
        try_keys (nonce header.request_id header.offset 0) (body datagram) header
          (keys_for o.key (Keystore.find header.key_fingerprint keystore)) o.request)

  -- An operation that no key has opened is let go of at the end of `dispatch`.
  unfoldable pub keep :
      OperationKey → Operation → List (OperationKey × Operation) → List (OperationKey × Operation)
  keep k o operations = elim (o.key) [ none ↦ operations | some _ ↦ (k, o) ∷ operations ]

  -- `dispatch` of a datagram from an endpoint.
  unfoldable pub dispatch : Server → ℕ → List ℕ → Server × List Effect
  dispatch s endpoint datagram =
      let header = from_bytes datagram in
      let k : OperationKey = record {
        key_fingerprint = header.key_fingerprint;
        request_id = header.request_id;
      } in
      if ltb (length datagram) header_size then (s, []) else elim (find k s.operations) [
        | some o ↦
            let (o', effects) =
              unpack s.handlers s.keystore (record o { client_endpoint = endpoint }) datagram in
            (record s { operations = assign k o' s.operations }, effects)
        | none ↦
            let (o', effects) = unpack s.handlers s.keystore (new_operation endpoint k) datagram in
            (record s { operations = keep k o' s.operations }, effects)
      ]

  -- The handler of `receive`: what it does with the outcome, and whether the server receives again.
  unfoldable pub received : Option Errc → Server → ℕ → List ℕ → (Server × List Effect) × Bool
  received none s endpoint datagram = (dispatch s endpoint datagram, true)
  received (some operation_canceled) s endpoint datagram = ((s, []), false)
  received (some ec) s endpoint datagram = ((s, []), true)

  -- `pack`, which is called with the handler's answer, and sends it.
  unfoldable pub pack_response : ℕ → Operation → Key → List ℕ → Option (Operation × List Effect)
  pack_response fragment_size o key response = do
    fragments ←
        pack cipher
          (record {
            key = key;
            key_fingerprint = o.key_fingerprint;
            request_id = o.request_id;
            direction = 1;
            fragment_size = fragment_size;
          })
          response
    let o' = record o { response_buffers = o.response_buffers ++ fragments }
    some (o', respond o')

  -- The callback that a handler is given. The operation is there while the callback is.
  unfoldable pub respond_with : OperationKey → List ℕ → Server → Option (Server × List Effect)
  respond_with k response s = do
    o ← find k s.operations
    key ← o.key
    (o', effects) ← pack_response s.send_fragment_size o key response
    some (record s { operations = assign k o' s.operations }, effects)

  -- `~Operation`, once nothing holds on to it.
  unfoldable pub destroy : OperationKey → Server → Server
  destroy k s = record s { operations = erase k s.operations }
