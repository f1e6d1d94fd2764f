-- ===== src/Net/Rpc/Client.antt =====
-- net/rpc/client.h and net/rpc/client.cc: calls to servers.
-- An operation lives in the map from its construction to its destruction, when the timer and the
-- sockets have let go of it. A socket or the timer is told what to do by an Effect. A time is a
-- number of nanoseconds, and one below zero is taken as zero, which the code treats alike.
pub mod Receive
pub mod AnyOrder
pub mod Retry
mod Tests
use trunk.Prelude.{
  ℕ, zero, suc, ◌+◌, ◌-◌, ◌*◌, min, List, [], ◌∷◌, ◌++◌, map, Option, none, some, Bool, true, false,
  not, ltb, leb, ◌^◌, ◌==◌, if◌then◌else◌, length,
}
use trunk.Prelude.Monad.{◌>>=◌}
use trunk.Prelude.Result.{Errc, timed_out, bad_address, operation_canceled}
use trunk.Io.MemoryFile.{resize}
use trunk.Security.Key.{Cipher, Key, fingerprint, decrypt}
use trunk.Util.FibonacciSequence
use trunk.Util.FibonacciSequence.{FibonacciSequence}
use trunk.Net.Rpc.Wire.{Header, header_size, from_bytes, body, is_partial, nonce}
use trunk.Net.Rpc.Fragments.{Sending, pack}
use trunk.Net.Rpc.Assembly.{IntervalSet, Assembly, new_assembly, write, mark, is_complete}
use trunk.Net.Rpc.OperationKey.{OperationKey, find, assign, erase, emplace}

pub record RequestOptions : Type 0 where
  pub key : Key
  pub timeout : ℕ
  pub initial_retry : ℕ

pub data Effect : Type 0 where
  -- `async_send_to` on a channel, to an endpoint
  send_to : ℕ → ℕ → List ℕ → Effect
  -- `async_wait` of so many nanoseconds
  wait_for : ℕ → Effect
  -- the call of `callback_`
  call_back : Option Errc → List ℕ → Effect

-- `Client::request`: the body, a zero unless the body is empty, and the method.
unfoldable pub message : List ℕ → List ℕ → List ℕ
message method [] = method
message method (b ∷ bs) = (b ∷ bs) ++ (0 ∷ method)

module _ (cipher : Cipher) (sets : IntervalSet) where
  pub record Operation : Type 0 where
    pub endpoint : ℕ
    pub options : RequestOptions
    pub request_id : ℕ
    pub request_buffers : List (List ℕ)
    pub wait_sequence : FibonacciSequence
    pub finished : Bool
    pub result_ec : Option Errc
    pub response : Assembly sets

  pub record Client : Type 0 where
    pub num_channels : ℕ
    pub send_fragment_size : ℕ
    -- the index of the channel that `channels_iter_` points to
    pub channels_iter : ℕ
    pub operations : List (OperationKey × Operation)

  -- The constructor of the client, which also lets each channel receive.
  unfoldable pub new_client : ℕ → ℕ → Client
  new_client num_channels send_fragment_size = record {
    num_channels = num_channels;
    send_fragment_size = send_fragment_size;
    channels_iter = 0;
    operations = [];
  }

  -- `abort`, which also ends the wait.
  unfoldable pub abort : Errc → Operation → Operation
  abort ec o = if o.finished then o else record o { finished = true; result_ec = some ec }

  -- `send`: all fragments on the next channel, and a wait of the next length; or the end. `none` is
  -- a wait of more nanoseconds than 63 bits hold, or a number of the wait sequence that is no `int`.
  unfoldable pub send : ℕ → Operation → Option (Operation × List Effect)
  send channel o =
      let product = o.options.initial_retry * o.wait_sequence.a in
      let wait_period = min product o.options.timeout in
      if o.options.timeout == 0
      then some (abort timed_out o, [])
      else if leb (2 ^ 63) product
      then none
      else do
        wait_sequence ← FibonacciSequence.next (2 ^ 31) o.wait_sequence
        some (
          record o {
            options = record (o.options) { timeout = o.options.timeout - wait_period };
            wait_sequence = wait_sequence;
          },
          map (send_to channel o.endpoint) o.request_buffers ++ (wait_for wait_period ∷ []),
        )

  -- `++channels_iter_`, and back to the front at the end.
  unfoldable pub next_channel : Client → ℕ
  next_channel c = if c.channels_iter + 1 == c.num_channels then 0 else c.channels_iter + 1

  -- `send` takes a channel only if there is time left.
  unfoldable pub send_from : Client → OperationKey → Operation → Option (Client × List Effect)
  send_from c k o = do
    (o', effects) ← send c.channels_iter o
    some (
      record c {
        channels_iter = if o.options.timeout == 0 then c.channels_iter else next_channel c;
        operations = assign k o' c.operations;
      },
      effects,
    )

  -- The constructor of an operation, with the identity that was drawn.
  unfoldable pub new_operation : ℕ → ℕ → List ℕ → RequestOptions → ℕ → Option Operation
  new_operation fragment_size endpoint request options request_id = do
    request_buffers ←
        pack cipher
          (record {
            key = options.key;
            key_fingerprint = fingerprint cipher options.key;
            request_id = request_id;
            direction = 0;
            fragment_size = fragment_size;
          })
          request
    some (record {
      endpoint = endpoint;
      options = options;
      request_id = request_id;
      request_buffers = request_buffers;
      wait_sequence = FibonacciSequence.reset;
      finished = false;
      result_ec = some bad_address;
      response = new_assembly sets;
    })

  -- Numbers are drawn until one is free; `none` is fuel that ran out.
  unfoldable pub draw : ℕ → ℕ → (ℕ → ℕ) → List (OperationKey × Operation) → Option ℕ
  draw zero fp gen operations = none
  draw (suc fuel) fp gen operations =
      elim (find (record { key_fingerprint = fp; request_id = gen 0 }) operations) [
        | none ↦ some (gen 0)
        | some _ ↦ draw fuel fp (λ i. gen (suc i)) operations
      ]

  -- `request`: `gen` is the stream of the numbers to come.
  unfoldable pub request :
      ℕ → Client → (ℕ → ℕ) → ℕ → List ℕ → List ℕ → RequestOptions → Option (Client × List Effect)
  request fuel c gen endpoint method input options = do
    let fp = fingerprint cipher options.key
    request_id ← draw fuel fp gen c.operations
    o ← new_operation c.send_fragment_size endpoint (message method input) options request_id
    let k : OperationKey = record { key_fingerprint = fp; request_id = request_id }
    send_from (record c { operations = (k, o) ∷ c.operations }) k o

  -- The test at the end of `unpack`; the wait ends as well.
  unfoldable pub settle : Operation → Operation
  settle o =
      if is_complete sets o.response then record o { finished = true; result_ec = none } else o

  -- `unpack` once the body of the fragment has been opened, or refused.
  unfoldable pub unpacked : Operation → Header → ℕ → List ℕ → Option (List ℕ) → Operation
  unpacked o header body_size refused none = record o {
    response = write sets header.offset body_size refused o.response;
  }
  unpacked o header body_size refused (some text) = settle (record o {
    response =
        mark sets header.offset (length text) (is_partial header)
          (write sets header.offset body_size text o.response);
  })

  unfoldable pub unpack : Operation → List ℕ → Operation
  unpack o fragment =
      let header = from_bytes fragment in
      let n = nonce header.request_id header.offset 1 in
      let refused = cipher.aead_refused o.options.key n (body fragment) in
      if o.finished
      then o
      else unpacked o header (length (body fragment)) refused
          (decrypt cipher o.options.key n (body fragment))

  -- `dispatch` of a datagram.
  unfoldable pub dispatch : Client → List ℕ → Client
  dispatch c datagram =
      let header = from_bytes datagram in
      let k : OperationKey = record {
        key_fingerprint = header.key_fingerprint;
        request_id = header.request_id;
      } in
      if ltb (length datagram) header_size then c else elim (find k c.operations) [
        | none ↦ c
        | some o ↦ record c { operations = assign k (unpack o datagram) c.operations }
      ]

  -- The handler of `receive`: what it does with the outcome, and whether the channel receives again.
  unfoldable pub received : Option Errc → Client → List ℕ → Client × Bool
  received none c datagram = (dispatch c datagram, true)
  received (some operation_canceled) c datagram = (c, false)
  received (some ec) c datagram = (c, true)

  -- The handler of the wait. A wait that is cancelled ends quietly; another error ends the
  -- operation.
  unfoldable pub waited : Option Errc → OperationKey → Client → Option (Client × List Effect)
  waited ec k c = elim (find k c.operations) [
    | none ↦ some (c, [])
    | some o ↦ elim ec [
      | none ↦ send_from c k o
      | some operation_canceled ↦ some (c, [])
      | some e ↦ some (record c { operations = assign k (abort e o) c.operations }, [])
    ]
  ]

  -- What the destructor hands to the callback.
  unfoldable pub outcome : Operation → Option Errc × List ℕ
  outcome o = elim (o.result_ec) [
    | some ec ↦ (some ec, [])
    | none ↦ (none, resize o.response.size o.response.bytes)
  ]

  -- `~Operation`
  unfoldable pub destroy : OperationKey → Client → Client × List Effect
  destroy k c = elim (find k c.operations) [
    | none ↦ (c, [])
    | some o ↦
        let (ec, response) = outcome o in
        (record c { operations = erase k c.operations }, call_back ec response ∷ [])
  ]
