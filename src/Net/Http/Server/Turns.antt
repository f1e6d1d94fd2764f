-- ===== src/Net/Http/Server/Turns.antt =====
-- The order of requests and responses.
use trunk.Prelude.{◌≡◌, refl, ap, ◌∙◌, List, [], ◌∷◌, ◌++◌, Option, none, some, Bool, arith}
use trunk.Prelude.Result.{Errc}
use trunk.Net.Http.Server.{
  Call, async_read, handling, async_write, Effect, handler, send, Connection, new_connection, read,
  close, update_timer, handle, write, handled, returned, read_done, write_done,
}
use trunk.Net.Http.Server.Steps.{Runs, start, was_read, was_handled, was_written, expired}

-- Whose turn it is: the client's, to send a request, or the server's, to answer it.
pub data Turn : Type 0 where
  client server : Turn

module _ (Request Response : Type 0) where
  abbrev take_turn : Turn → Effect Request Response → Option Turn
  take_turn client (handler request) = some server
  take_turn client (send response) = none
  take_turn server (handler request) = none
  take_turn server (send response) = some client

  -- Requests and responses in turn, from whose turn it is to whose it is then.
  abbrev pub turns : Turn → List (Effect Request Response) → Option Turn
  turns t [] = some t
  turns t (e ∷ es) = elim (take_turn t e) [ none ↦ none | some t' ↦ turns t' es ]

  abbrev pub turn_of : Call → Turn
  turn_of async_read = client
  turn_of handling = server
  turn_of async_write = client

  turns-append :
      (t t' : Turn) (xs ys : List (Effect Request Response))
      → turns t xs ≡ some t'
      → turns t (xs ++ ys) ≡ turns t' ys
  turns-append t t' [] ys h = ap (λ o. elim o [ none ↦ none | some u ↦ turns u ys ]) h
  turns-append client t' (handler request ∷ xs) ys h = turns-append server t' xs ys h
  turns-append client t' (send response ∷ xs) ys h = absurd (cc h)
  turns-append server t' (handler request ∷ xs) ys h = absurd (cc h)
  turns-append server t' (send response ∷ xs) ys h = turns-append client t' xs ys h

  -- Whose turn it is behind what a connection did, and that this is what it waits for.
  abbrev InTurn : Turn → List (Effect Request Response) → Connection Request Response → Type 0
  InTurn t effects c =
      (t' : Turn) × (turns t effects ≡ some t')
      × ((call : Call) → c.pending ≡ some call → t' ≡ turn_of call)

  read_done-InTurn :
      (ec : Option Errc) (request : Request) (now : Option (Option Errc × Response))
      (c c' : Connection Request Response) (effects : List (Effect Request Response))
      → read_done Request Response ec request now c ≡ some (c', effects)
      → InTurn client effects c'
  unfolding read_done returned handled handle write update_timer close
  read_done-InTurn (some ec) request now c c' effects h =
      (client, ground (arith, h), λ call e. absurd (ground (arith, h, e)))
  read_done-InTurn none request none c c' effects h =
      (server, ground (arith, h), λ call e. ground (arith, h, e))
  read_done-InTurn none request (some (some ec, response)) c c' effects h =
      absurd (ground (arith, h))
  read_done-InTurn none request (some (none, response)) c c' effects h =
      (client, ground (arith, h), λ call e. ground (arith, h, e))

  handled-InTurn :
      (ec : Option Errc) (response : Response) (c c' : Connection Request Response)
      (effects : List (Effect Request Response))
      → handled Request Response ec response c ≡ some (c', effects)
      → InTurn server effects c'
  unfolding handled write update_timer close
  handled-InTurn (some ec) response c c' effects h =
      (server, ground (arith, h), λ call e. absurd (ground (arith, h, e)))
  handled-InTurn none response c c' effects h =
      (client, ground (arith, h), λ call e. ground (arith, h, e))

  write_done-InTurn :
      (ec : Option Errc) (need_eof : Bool) (c c' : Connection Request Response)
      (effects : List (Effect Request Response))
      → write_done Request Response ec need_eof c ≡ some (c', effects)
      → InTurn client effects c'
  unfolding write_done read update_timer close
  write_done-InTurn (some ec) need_eof c c' effects h =
      (client, ground (arith, h), λ call e. absurd (ground (arith, h, e)))
  write_done-InTurn none need_eof c c' effects h =
      (client, ground (arith, h), λ call e. ground (arith, h, e))

  then-InTurn :
      (t : Turn) (before effects : List (Effect Request Response))
      (c' : Connection Request Response)
      → turns client before ≡ some t
      → InTurn t effects c'
      → InTurn client (before ++ effects) c'
  then-InTurn t before effects c' h (t', h', waits) =
      (t', turns-append client t before effects h ∙ h', waits)

  Runs-InTurn :
      {c : Connection Request Response} {effects : List (Effect Request Response)}
      → Runs Request Response c effects
      → InTurn client effects c
  unfolding new_connection read close
  Runs-InTurn (start response) = (client, refl, λ call e. ground (arith, e))
  Runs-InTurn (was_read c c' ec request now before effects run e h) =
      let (t, so_far, waits) = Runs-InTurn run in
      then-InTurn client before effects c' (so_far ∙ ap some (waits async_read e))
        (read_done-InTurn ec request now c c' effects h)
  Runs-InTurn (was_handled c c' ec response before effects run e h) =
      let (t, so_far, waits) = Runs-InTurn run in
      then-InTurn server before effects c' (so_far ∙ ap some (waits handling e))
        (handled-InTurn ec response c c' effects h)
  Runs-InTurn (was_written c c' ec need_eof before effects run e h) =
      let (t, so_far, waits) = Runs-InTurn run in
      then-InTurn client before effects c' (so_far ∙ ap some (waits async_write e))
        (write_done-InTurn ec need_eof c c' effects h)
  Runs-InTurn (expired c before run on) = Runs-InTurn run

  -- In every run of a connection in which everything that was done is defined, the requests given to
  -- the handler of the server and the responses sent take turns, a request first. While the
  -- connection reads or writes, each request so far has its response; while the server handles a
  -- request, just that one has none.
  pub Runs-turns :
      (c : Connection Request Response) (effects : List (Effect Request Response)) (call : Call)
      → Runs Request Response c effects
      → c.pending ≡ some call
      → turns client effects ≡ some (turn_of call)
  Runs-turns c effects call run e =
      let (t, so_far, waits) = Runs-InTurn run in so_far ∙ ap some (waits call e)
