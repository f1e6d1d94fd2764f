-- ===== src/Net/Http/Client.antt =====
-- net/http/client.h and net/http/client.cc: requests over a pool of connections.
-- A connection is an object that lives while a handler of the network library holds on to it; the
-- pool and the timer do not. It has one operation at most under way. Host names are bytes, requests
-- and responses are those of Boost.Beast, a callback is a number that names it. What a callback
-- itself calls is taken as a later call.
pub mod Freed
mod Keys
mod Steps
mod Entries
pub mod Timers
pub mod Counts
mod Settled
mod Tests
unfoldable pub use Keys.*
use trunk.Prelude.{
  ℕ, zero, suc, ◌+◌, List, [], ◌∷◌, ◌++◌, Option, none, some, Bool, true, false, not, ◌&&◌, ◌==◌,
  if◌then◌else◌, length, get_elem?, set,
}
use trunk.Prelude.Result.{Errc, timed_out}

-- The asynchronous calls, each of which has a handler.
pub data Call : Type 0 where
  async_resolve async_connect async_handshake async_write async_read_header async_read_some : Call

-- What a connection's step does to the pool.
pub data Fate : Type 0 where
  stays closes pools : Fate

module _ (Request Response : Type 0) where
  pub data Effect : Type 0 where
    -- `callback`, with an error or the response
    call_back : ℕ → Option Errc → Option Response → Effect
    -- `progress_callback`
    report : ℕ → Effect

  -- What a handler is called with: an error, whether the parser is done, and what it has released.
  pub record Reply : Type 0 where
    pub ec : Option Errc
    pub is_done : Bool
    pub response : Response

  pub record Connection : Type 0 where
    pub key : ConnectionKey
    -- `request_state_`
    pub request : Option Request
    pub progress_callback : Option ℕ
    pub callback : Option ℕ
    pub connections_iter : Bool
    -- whether the stream has not been closed
    pub stream : Bool
    -- whether `timer_` is scheduled, as it is from its construction until it runs
    pub timer : Bool
    -- the call that is under way
    pub pending : Option Call
    -- whether the object has been destroyed
    pub freed : Bool

  pub record Client : Type 0 where
    pub connections : Pool
    -- all connections that were made, the latest last
    pub objects : List Connection

  unfoldable pub new_client : Client
  new_client = record { connections = []; objects = [] }

  -- `finish`: the callback, if there is one, and no request any more.
  unfoldable pub finish : Option Errc → Option Response → Connection → Connection × List Effect
  finish ec response c = elim (c.callback) [
    | none ↦ (record c { request = none; progress_callback = none }, [])
    | some callback ↦ (
      record c { request = none; progress_callback = none; callback = none },
      call_back callback ec response ∷ [],
    )
  ]

  -- `timer_.update()`: a timer that is scheduled begins again, and one that has run stays as it is.
  unfoldable pub keep_alive : Connection → Connection
  keep_alive c = if c.timer then record c { timer = true } else c

  -- A call that the connection makes, and that holds on to it.
  unfoldable pub wait_for : Call → Connection → Connection
  wait_for call c = record c { pending = some call }

  unfoldable pub write : Connection → Connection
  write c = wait_for async_write (keep_alive c)

  -- `handshake`, which only a stream of SSL does.
  unfoldable pub handshake : Connection → Connection
  handshake c = elim (c.key.protocol) [
    | http ↦ write c
    | https_verify_none ↦ wait_for async_handshake c
  ]

  -- `close`, but for the pool.
  unfoldable pub close : Connection → Connection × List Effect
  close c =
      let (c', effects) = finish (some timed_out) none c in
      (record c' { stream = false; connections_iter = false }, effects)

  -- An error: the callback gets it, and the connection is closed.
  unfoldable pub fail : Errc → Connection → Connection × List Effect
  fail e c =
      let (c1, effects) = finish (some e) none c in
      let (c2, effects') = close c1 in (c2, effects ++ effects')

  -- A handler that goes on with the connection, or closes it on an error.
  unfoldable pub unless_closed :
      (Connection → Connection) → Option Errc → Connection → Connection × List Effect × Fate
  unless_closed more none c = (more c, [], stays)
  unless_closed more (some e) c = let (c', effects) = fail e c in (c', effects, closes)

  -- A handler that goes on, or finishes with the error and does not close.
  unfoldable pub unless_finished :
      (Connection → Connection) → Option Errc → Connection → Connection × List Effect × Fate
  unless_finished more none c = (more c, [], stays)
  unless_finished more (some e) c =
      let (c', effects) = finish (some e) none c in (c', effects, stays)

  -- The handler of `read_header`: a connection without a callback is closed.
  unfoldable pub header_read : Option ℕ → Option Errc → Connection → Connection × List Effect × Fate
  header_read none ec c = let (c', effects) = close c in (c', effects, closes)
  header_read (some callback) ec c =
      unless_closed (λ c'. wait_for async_read_some (keep_alive c')) ec c

  abbrev pub reports : Option ℕ → List Effect
  reports none = []
  reports (some progress) = report progress ∷ []

  -- The handler of `read_some` without an error.
  unfoldable pub some_read : Reply → Connection → Connection × List Effect × Fate
  some_read reply c =
      let (c', effects) = finish none (some reply.response) c in
      if reply.is_done
      then (keep_alive (record c' { connections_iter = true }), effects, pools)
      else (wait_for async_read_some (keep_alive c), reports c.progress_callback, stays)

  -- The handler of each call.
  unfoldable pub handler : Call → Reply → Connection → Connection × List Effect × Fate
  handler async_resolve reply c = unless_finished (wait_for async_connect) reply.ec c
  handler async_connect reply c = unless_finished handshake reply.ec c
  handler async_handshake reply c = unless_closed write reply.ec c
  handler async_write reply c = unless_closed (wait_for async_read_header) reply.ec c
  handler async_read_header reply c = header_read c.callback reply.ec c
  handler async_read_some reply c = elim (reply.ec) [
    | none ↦ some_read reply c
    | some e ↦ let (c', effects) = fail e c in (c', effects, closes)
  ]

  -- The handler is destroyed, and the connection with it unless it has made another call. The timer
  -- is a part of the connection.
  unfoldable pub released : Connection → Connection
  released c = elim (c.pending) [ none ↦ record c { freed = true; timer = false } | some call ↦ c ]

  -- What becomes of the pool; the second argument is the connection before the step.
  unfoldable pub pooled : Fate → Connection → ℕ → Pool → Pool
  pooled stays c id pool = pool
  pooled closes c id pool =
      if c.connections_iter then put c.key (remove id (find c.key pool)) pool else pool
  pooled pools c id pool = put c.key (id ∷ find c.key pool) pool

  unfoldable pub stepped :
      Client → ℕ → Connection → Connection × List Effect × Fate → Client × List Effect
  stepped s id c (c', effects, fate) = (
    record {
      connections = pooled fate c id s.connections;
      objects = set s.objects id (released c');
    },
    effects,
  )

  -- The end of a call: its handler.
  unfoldable pub complete : Client → ℕ → Connection → Call → Reply → Client × List Effect
  complete s id c call reply = stepped s id c (handler call reply (record c { pending = none }))

  -- The timer's callback, `close`. It holds on to nothing: the connection has a call under way.
  unfoldable pub expire : Client → ℕ → Connection → Client × List Effect
  expire s id c =
      let (c', effects) = close (record c { timer = false }) in stepped s id c (c', effects, closes)

  -- `resolve`, where the name that SSL is given may be refused.
  unfoldable pub resolve : Option Errc → Connection → Connection × List Effect
  resolve refused c = elim (c.key.protocol) [
    | http ↦ (wait_for async_resolve c, [])
    | https_verify_none ↦ elim refused [
      | none ↦ (wait_for async_resolve c, [])
      | some e ↦ finish (some e) none c
    ]
  ]

  -- `request` on a connection of the pool: its first, which is taken out. `none` is a connection
  -- that has been destroyed.
  unfoldable pub request_again :
      Client → ConnectionKey → ℕ → List ℕ → Request → Option ℕ → ℕ → Option (Client × List Effect)
  request_again s k id ids request progress callback = elim (get_elem? s.objects id) [
    | none ↦ none
    | some c ↦
        let c' = write (record c {
          request = some request;
          progress_callback = progress;
          callback = some callback;
          connections_iter = false;
        }) in
        if c.freed
        then none
        else some
            (record { connections = put k ids s.connections; objects = set s.objects id c' }, [])
  ]

  -- `request` on a new connection.
  unfoldable pub request_new :
      Client → ConnectionKey → Option Errc → Request → Option ℕ → ℕ → Client × List Effect
  request_new s k refused request progress callback =
      let (c, effects) = resolve refused (record {
        key = k;
        request = some request;
        progress_callback = progress;
        callback = some callback;
        connections_iter = false;
        stream = true;
        timer = true;
        pending = none;
        freed = false;
      }) in
      (record s { objects = s.objects ++ (released c ∷ []) }, effects)

  -- `request`
  unfoldable pub request :
      Client → ConnectionKey → Option Errc → Request → Option ℕ → ℕ → Option (Client × List Effect)
  request s k refused r progress callback = elim (find k s.connections) [
    | [] ↦ some (request_new s k refused r progress callback)
    | id ∷ ids ↦ request_again s k id ids r progress callback
  ]
