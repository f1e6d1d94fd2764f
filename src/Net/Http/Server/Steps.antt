-- ===== src/Net/Http/Server/Steps.antt =====
-- The runs of a connection of the server.
use trunk.Prelude.{◌≡◌, List, [], ◌++◌, Option, some, Bool, true}
use trunk.Prelude.Result.{Errc}
use trunk.Net.Http.Server.{
  async_read, handling, async_write, Effect, Connection, new_connection, close, handled, read_done,
  write_done,
}

module _ (Request Response : Type 0) where
  -- A connection and what it did, the first first: the ends of its reads and writes, the callbacks
  -- that it gave to the handler of the server, and the timer, in any order, as long as what they do
  -- is defined.
  pub data Runs : Connection Request Response → List (Effect Request Response) → Type 0 where
    start : (response : Response) → Runs (new_connection Request Response response) []
    was_read :
        (c c' : Connection Request Response) (ec : Option Errc) (request : Request)
        (now : Option (Option Errc × Response)) (before effects : List (Effect Request Response))
        → Runs c before
        → c.pending ≡ some async_read
        → read_done Request Response ec request now c ≡ some (c', effects)
        → Runs c' (before ++ effects)
    was_handled :
        (c c' : Connection Request Response) (ec : Option Errc) (response : Response)
        (before effects : List (Effect Request Response))
        → Runs c before
        → c.pending ≡ some handling
        → handled Request Response ec response c ≡ some (c', effects)
        → Runs c' (before ++ effects)
    was_written :
        (c c' : Connection Request Response) (ec : Option Errc) (need_eof : Bool)
        (before effects : List (Effect Request Response))
        → Runs c before
        → c.pending ≡ some async_write
        → write_done Request Response ec need_eof c ≡ some (c', effects)
        → Runs c' (before ++ effects)
    expired :
        (c : Connection Request Response) (before : List (Effect Request Response))
        → Runs c before
        → c.timer ≡ true
        → Runs (close Request Response c) before
