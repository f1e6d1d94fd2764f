-- ===== src/Net/Http/Server.antt =====
-- net/http/server.h and net/http/server.cc: a connection of the server.
-- It reads a request, gives it to the handler of the server, writes the response that the handler
-- leaves, and reads again. Requests and responses are those of Boost.Beast. `none` is what C++ leaves
-- undefined. The loop of `accept` makes a connection for each socket and keeps no state of its own.
mod Steps
pub mod Turns
pub mod Late
mod Tests
use trunk.Prelude.{List, [], ◌∷◌, ◌++◌, Option, none, some, Bool, true, false, if◌then◌else◌}
use trunk.Prelude.Result.{Errc}
use trunk.Prelude.Monad.{◌>>=◌}

-- What a connection waits for: the two calls of Boost.Beast, or the callback that it gave to the
-- handler of the server.
pub data Call : Type 0 where
  async_read handling async_write : Call

module _ (Request Response : Type 0) where
  pub data Effect : Type 0 where
    -- `server_.handler_`, with a request
    handler : Request → Effect
    send : Response → Effect

  pub record Connection : Type 0 where
    -- whether the stream has not been closed
    pub stream : Bool
    pub request : Option Request
    pub response : Response
    -- whether `timer_` has a value, which is scheduled
    pub timer : Bool
    -- the call that is under way, and that holds on to the connection
    pub pending : Option Call

  unfoldable pub read : Connection → Connection
  read c = record c { request = none; pending = some async_read }

  unfoldable pub new_connection : Response → Connection
  new_connection response =
      read (record {
        stream = true;
        request = none;
        response = response;
        timer = true;
        pending = none;
      })

  unfoldable pub close : Connection → Connection
  close c = record c { timer = false; stream = false }

  -- `timer_->update()`
  unfoldable pub update_timer : Connection → Option Connection
  update_timer c = if c.timer then some c else none

  unfoldable pub handle : Request → Connection → Connection × List Effect
  handle request c =
      (record c { request = some request; pending = some handling }, handler request ∷ [])

  unfoldable pub write : Connection → Connection × List Effect
  write c = (record c { pending = some async_write }, send c.response ∷ [])

  -- The callback given to the handler of the server, which has set the response.
  unfoldable pub handled : Option Errc → Response → Connection → Option (Connection × List Effect)
  handled (some ec) response c = some (close (record c { response = response; pending = none }), [])
  handled none response c =
      let (c', effects) = write (record c { response = response; pending = none }) in
      do c'' ← update_timer c'; some (c'', effects)

  -- The handler of the server returns, having called the callback or not.
  unfoldable pub returned :
      Option (Option Errc × Response) → Connection → Option (Connection × List Effect)
  returned none c = some (c, [])
  returned (some (ec, response)) c = handled ec response c

  -- The handler of `read`.
  unfoldable pub read_done :
      Option Errc
      → Request
      → Option (Option Errc × Response)
      → Connection
      → Option (Connection × List Effect)
  read_done (some ec) request now c = some (close (record c { pending = none }), [])
  read_done none request now c =
      let (c1, effects) = handle request c in
      do r ← returned now c1; c2 ← update_timer r.0; some (c2, effects ++ r.1)

  -- The handler of `write`.
  unfoldable pub write_done : Option Errc → Bool → Connection → Option (Connection × List Effect)
  write_done (some ec) need_eof c = some (close (record c { pending = none }), [])
  write_done none need_eof c =
      let more = update_timer (read c) in
      if need_eof
      then some (close (record c { pending = none }), [])
      else (do c' ← more; some (c', []))
