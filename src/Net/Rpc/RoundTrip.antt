-- ===== src/Net/Rpc/RoundTrip.antt =====
-- A call from its request to its response: the client and the server together.
mod Tests
use trunk.Prelude.{
  ℕ, ◌+◌, ◌≤◌, ◌<◌, ◌*◌, ◌≡◌, ◌≢◌, ◌∙◌, refl, ap, sym, List, [], ◌∷◌, ◌++◌, Option, none, some,
  Bool, true, false, ◌==◌, if_false, subst, replicate, ◌^◌, length, All, arith,
}
use trunk.Prelude.Endian.{load, load-lt}
use trunk.Prelude.Monad.{◌>>=◌, bind_some}
use trunk.Security.Key.{Cipher, Key, fingerprint}
use trunk.Security.Keystore
use trunk.Security.Keystore.{Keystore}
use trunk.Net.Rpc.Wire.{Header}
use trunk.Net.Rpc.Fragments.{Sending, pack}
use trunk.Net.Rpc.Fragments.Cut.{longest, IsProper}
use trunk.Net.Rpc.Fragments.Among.{Among}
use trunk.Net.Rpc.Assembly.{IntervalSet, new_assembly}
use trunk.Net.Rpc.OperationKey.{OperationKey}
use trunk.Net.Rpc.Client
use trunk.Net.Rpc.Client.{RequestOptions, message, outcome}
use trunk.Net.Rpc.Client.Receive
use trunk.Net.Rpc.Client.Retry.{resent, send_lem}
use trunk.Util.FibonacciSequence.{FibonacciSequence, reset, next}
use trunk.Net.Rpc.Client.AnyOrder.{IsFresh, response-each_arrived}
use trunk.Net.Rpc.Server
use trunk.Net.Rpc.Server.{Effect, call, has_handler, pack_response}
use trunk.Net.Rpc.Server.AnyOrder
use trunk.Net.Rpc.Server.AnyOrder.{request-each_arrived}

-- What the fragments of a client's request share.
abbrev pub asking : Cipher → RequestOptions → ℕ → ℕ → Sending
asking cipher options request_id fragment_size = record {
  key = options.key;
  key_fingerprint = fingerprint cipher options.key;
  request_id = request_id;
  direction = 0;
  fragment_size = fragment_size;
}

module _ (cipher : Cipher) (sets : IntervalSet) where
  -- What the constructor has put into the operation.
  new_operation_packed :
      (size endpoint : ℕ) (m : List ℕ) (options : RequestOptions) (id : ℕ)
      (o : Client.Operation cipher sets)
      → Client.new_operation cipher sets size endpoint m options id ≡ some o
      → (pack cipher (asking cipher options id size) m ≡ some o.request_buffers)
        × (o.options ≡ options)
        × (o.wait_sequence ≡ reset)
        × (o.finished ≡ false)
        × (o.response ≡ new_assembly sets)
  unfolding Client.new_operation
  new_operation_packed size endpoint m options id o is =
      let (buffers, packed, made) =
        bind_some (pack cipher (asking cipher options id size) m) _ o is in
      (
        packed ∙ ap (λ x. some (x.request_buffers)) made,
        ap (λ x. x.options) (sym made),
        ap (λ x. x.wait_sequence) (sym made),
        ap (λ x. x.finished) (sym made),
        ap (λ x. x.response) (sym made),
      )

  -- What the server has put into the operation.
  pack_response_packed :
      (size : ℕ) (o o' : Server.Operation cipher sets) (key : Key) (response : List ℕ)
      (effects : List Effect)
      → o.response_buffers ≡ []
      → pack_response cipher sets size o key response ≡ some (o', effects)
      → pack cipher
          (record {
            key = key;
            key_fingerprint = o.key_fingerprint;
            request_id = o.request_id;
            direction = 1;
            fragment_size = size;
          })
          response
        ≡ some o'.response_buffers
  unfolding pack_response
  pack_response_packed size o o' key response effects nothing is =
      let (buffers, packed, made) = bind_some (pack cipher _ response) _ (o', effects) is in
      packed
      ∙ ap some (ap (λ bs. bs ++ buffers) (sym nothing) ∙ ap (λ p. p.0.response_buffers) made)

  -- An operation that is sent for the first time, while there is time left, goes on waiting for its
  -- response.
  send-IsFresh :
      (sending : Sending) (channel : ℕ) (o : Client.Operation cipher sets)
      → 0 < o.options.timeout
      → o.options.initial_retry < 2 ^ 63
      → o.wait_sequence ≡ reset
      → IsFresh cipher sets sending o
      → (waiting : Client.Operation cipher sets) × (effects : List Client.Effect) × (Client.send
            cipher sets channel o
          ≡ some (waiting, effects))
        × IsFresh cipher sets sending waiting
  unfolding reset next
  send-IsFresh sending channel o left fits new f =
      let w : FibonacciSequence = record { a = 1; b = 2 } in
      let first : o.wait_sequence.a ≡ 1 = ap (λ s. s.a) new in
      let product : o.options.initial_retry * o.wait_sequence.a ≡ o.options.initial_retry * 1 =
        ap (λ a. o.options.initial_retry * a) first in
      (
        resent cipher sets o w,
        _,
        send_lem cipher sets channel o w left (omega (arith, product, fits))
            (ap (next (2 ^ 31)) new),
        record { keyed = f.keyed; unfinished = f.unfinished; nothing_yet = f.nothing_yet },
      )

fingerprint_lt : (cipher : Cipher) (key : Key) → fingerprint cipher key < 2 ^ 64
unfolding fingerprint
fingerprint_lt cipher key =
    let ks : List ℕ = cipher.chacha_20 (replicate 8 0) key (replicate 12 0) in
    let n : length ks ≡ 8 = cipher.length-chacha_20 (replicate 8 0) key (replicate 12 0) in
    subst (λ k. load ks < 256 ^ k) n
      (load-lt ks (cipher.chacha_20-IsByte (replicate 8 0) key (replicate 12 0)))

-- A call, of a request of 2^16 bytes at most with its method and a response of 2^16 bytes at most,
-- with time left and a first wait of less than 2^63 nanoseconds. The client has made the operation;
-- the server has a handler of the method, under the fingerprint just the key, and an operation of the
-- same identity that has packed nothing yet. The client can send the operation. If all fragments of
-- the request arrive at the server, in any order and as often as they come, the handler is called
-- once, with the request. If the server packs the response and all its fragments arrive at the
-- client, in any order and as often as they come, the client's callback gets the response and no
-- error.
pub call_ends :
    (cipher : Cipher) (sets : IntervalSet) (client_size server_size id endpoint channel peer : ℕ)
    (options : RequestOptions) (handlers : List (List ℕ)) (keystore : Keystore)
    (method input response : List ℕ) (asker : Client.Operation cipher sets)
    (answerer answered : Server.Operation cipher sets) (sent : List Effect)
    (there back : List (List ℕ))
    → let fp = fingerprint cipher options.key in
      let k : OperationKey = record { key_fingerprint = fp; request_id = id } in
      id < 2 ^ 64
      → 0 < client_size
      → 0 < server_size
      → 0 < options.timeout
      → options.initial_retry < 2 ^ 63
      → length (message method input) ≤ longest
      → length response ≤ longest
      → All (λ c. c ≢ 0) method
      → has_handler method handlers ≡ true
      → Keystore.find fp keystore ≡ options.key ∷ []
      → Client.new_operation cipher sets client_size endpoint (message method input) options id
        ≡ some asker
      → All (Among asker.request_buffers) there
      → All (Among there) asker.request_buffers
      → answerer.key_fingerprint ≡ fp
      → answerer.request_id ≡ id
      → answerer.response_buffers ≡ []
      → pack_response cipher sets server_size answerer options.key response ≡ some (answered, sent)
      → All (Among answered.response_buffers) back
      → All (Among back) answered.response_buffers
      → let asking_server = Server.new_operation cipher sets peer k in
        (waiting : Client.Operation cipher sets) × (effects : List Client.Effect) × (Client.send
            cipher sets channel asker
          ≡ some (waiting, effects))
        × ((AnyOrder.unpack_all cipher sets handlers keystore asking_server there).1
            ≡ call method input options.key ∷ [])
        × (outcome cipher sets (Receive.unpack_all cipher sets waiting back) ≡ (none, response))
call_ends cipher sets client_size server_size id endpoint channel peer options handlers keystore
      method input response asker answerer answered sent there back id_fits some_client some_server
      time_left wait_fits short_request short_response nonzero handled only_key made there-Among
      there_all fp id_same nothing packed back-Among back_all =
    let request : Sending = asking cipher options id client_size in
    let reply : Sending = record {
      key = options.key;
      key_fingerprint = answerer.key_fingerprint;
      request_id = answerer.request_id;
      direction = 1;
      fragment_size = server_size;
    } in
    let small = fingerprint_lt cipher options.key in
    let (is, same_options, new, unfinished, nothing_yet) =
      new_operation_packed cipher sets client_size endpoint (message method input) options id asker
        made in
    let fresh : IsFresh cipher sets reply asker = record {
      keyed = ap (λ x. x.key) same_options;
      unfinished = unfinished;
      nothing_yet = nothing_yet;
    } in
    let left : 0 < asker.options.timeout =
      subst (λ (x : RequestOptions). 0 < x.timeout) (sym same_options) time_left in
    let wait_fits' : asker.options.initial_retry < 2 ^ 63 =
      subst (λ (x : RequestOptions). x.initial_retry < 2 ^ 63) (sym same_options) wait_fits in
    let (waiting, effects, sends, still_fresh) =
      send-IsFresh cipher sets reply channel asker left wait_fits' new fresh in
    (
      waiting,
      effects,
      sends,
      request-each_arrived cipher sets handlers keystore request method input asker.request_buffers
          there peer _ refl
          (record {
            request_id_fits = id_fits;
            key_fingerprint_fits = small;
            some_size = some_client;
          })
          only_key nonzero handled short_request is there-Among there_all,
      (response-each_arrived cipher sets reply response answered.response_buffers back waiting refl
          (record {
            request_id_fits = omega (arith, id_same, id_fits);
            key_fingerprint_fits = omega (arith, fp, small);
            some_size = some_server;
          })
          short_response
          (pack_response_packed cipher sets server_size answerer answered options.key response sent
            nothing packed)
          still_fresh back-Among back_all).1,
    )
