-- ===== src/Net/Http/Server/Late.antt =====
-- Responses that come after the timer.
use trunk.Prelude.{◌≡◌, refl, List, [], ◌∷◌, Option, none, some, Bool, if◌then◌else◌, arith}
use trunk.Prelude.Result.{Errc}
use trunk.Net.Http.Server.{
  async_write, Effect, send, Connection, new_connection, read, close, update_timer, handle, write,
  handled, returned, read_done, write_done,
}
use trunk.Net.Http.Server.Steps.{Runs, start, was_read, was_handled, was_written, expired}

module _ (Request Response : Type 0) where
  -- The timer and the stream go together.
  abbrev IsTimed : Connection Request Response → Type 0
  IsTimed c = c.timer ≡ c.stream

  read_done-IsTimed :
      (ec : Option Errc) (request : Request) (now : Option (Option Errc × Response))
      (c c' : Connection Request Response) (effects : List (Effect Request Response))
      → IsTimed c
      → read_done Request Response ec request now c ≡ some (c', effects)
      → IsTimed c'
  unfolding read_done returned handled handle write update_timer close
  read_done-IsTimed ec request now c c' effects timed h = ground (arith, h, timed)

  handled-IsTimed :
      (ec : Option Errc) (response : Response) (c c' : Connection Request Response)
      (effects : List (Effect Request Response))
      → IsTimed c
      → handled Request Response ec response c ≡ some (c', effects)
      → IsTimed c'
  unfolding handled write update_timer close
  handled-IsTimed ec response c c' effects timed h = ground (arith, h, timed)

  write_done-IsTimed :
      (ec : Option Errc) (need_eof : Bool) (c c' : Connection Request Response)
      (effects : List (Effect Request Response))
      → IsTimed c
      → write_done Request Response ec need_eof c ≡ some (c', effects)
      → IsTimed c'
  unfolding write_done read update_timer close
  write_done-IsTimed ec need_eof c c' effects timed h = ground (arith, h, timed)

  Runs-IsTimed :
      {c : Connection Request Response} {effects : List (Effect Request Response)}
      → Runs Request Response c effects
      → IsTimed c
  unfolding new_connection read close
  Runs-IsTimed (start response) = refl
  Runs-IsTimed (was_read c c' ec request now before effects run e h) =
      read_done-IsTimed ec request now c c' effects (Runs-IsTimed run) h
  Runs-IsTimed (was_handled c c' ec response before effects run e h) =
      handled-IsTimed ec response c c' effects (Runs-IsTimed run) h
  Runs-IsTimed (was_written c c' ec need_eof before effects run e h) =
      write_done-IsTimed ec need_eof c c' effects (Runs-IsTimed run) h
  Runs-IsTimed (expired c before run on) = refl

  -- In every run of a connection in which everything that was done is defined, the handler of the
  -- server that calls its callback without an error has its response sent if the stream is open. If
  -- the timer has closed it in the meantime, the call is undefined: it updates a timer that is no
  -- longer there.
  pub Runs-handled :
      (c : Connection Request Response) (effects : List (Effect Request Response))
      (response : Response)
      → Runs Request Response c effects
      → handled Request Response none response c ≡ (
          if c.stream
          then some
              (record c { response = response; pending = some async_write }, send response ∷ [])
          else none)
  unfolding handled write update_timer
  Runs-handled c effects response run = ground (arith, Runs-IsTimed run)
