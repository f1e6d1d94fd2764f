-- ===== src/Net/Http/Client/Timers.antt =====
-- The timer of a connection.
use trunk.Prelude.{
  All-set, All-get, ◌≡◌, refl, subst, List, [], ◌∷◌, Option, none, some, true, false, All,
  All-append, get_elem?, arith, ℕ,
}
use trunk.Prelude.Result.{Errc, timed_out}
use trunk.Net.Http.Client.{
  Call, Reply, Connection, Client, Effect, call_back, new_client, finish, keep_alive, wait_for,
  write, handshake, close, fail, unless_closed, unless_finished, header_read, some_read, handler,
  released, stepped, complete, expire, resolve, request_new, async_resolve, async_connect,
  async_handshake, async_write, async_read_header, async_read_some,
}
use trunk.Net.Http.Client.Freed.{alive_pending, request-IsSound, Runs-IsSound}
use trunk.Net.Http.Client.Settled.{IsSettled, IsHandled, handler-IsHandled, resolve-IsHandled}
use trunk.Net.Http.Client.Steps.{Runs, start, requested, completed, expired}

module _ (Request Response : Type 0) where
  -- The timer has not run as long as the callback waits.
  abbrev pub IsTimed : Connection Request Response → Type 0
  IsTimed c = (callback : ℕ) → c.callback ≡ some callback → c.timer ≡ true

  handler-IsTimed :
      (call : Call) (reply : Reply Request Response) (c : Connection Request Response)
      → IsTimed c
      → IsTimed (handler Request Response call reply (record c { pending = none })).0
  unfolding handler unless_finished unless_closed fail close header_read some_read handshake write
      wait_for keep_alive finish
  handler-IsTimed async_resolve reply c h callback e = ground (arith, h callback)
  handler-IsTimed async_connect reply c h callback e = ground (arith, h callback)
  handler-IsTimed async_handshake reply c h callback e = ground (arith, h callback)
  handler-IsTimed async_write reply c h callback e = ground (arith, h callback)
  handler-IsTimed async_read_header reply c h callback e = ground (arith, h callback)
  handler-IsTimed async_read_some reply c h callback e = ground (arith, h callback)

  -- A connection that is destroyed has called its callback.
  released-IsTimed :
      (c : Connection Request Response)
      → IsHandled Request Response c
      → IsTimed c
      → IsTimed (released Request Response c)
  unfolding released
  released-IsTimed c handled h callback e = ground (arith, h callback)

  expire-IsTimed :
      (c : Connection Request Response)
      → IsTimed (released Request Response (close Request Response (record c { timer = false })).0)
  unfolding close finish released
  expire-IsTimed c callback e = ground arith

  resolve-IsTimed :
      (refused : Option Errc) (c : Connection Request Response)
      → c.timer ≡ true
      → IsTimed (resolve Request Response refused c).0
  unfolding resolve finish wait_for
  resolve-IsTimed refused c t callback e = ground arith

  Runs-IsTimed :
      {s : Client Request Response} {given : List ℕ} {effects : List (Effect Request Response)}
      → Runs Request Response s given effects
      → All IsTimed s.objects
  unfolding new_client complete stepped expire request_new
  Runs-IsTimed start = tt
  Runs-IsTimed (requested s0 s k refused r progress callback given before es run e) =
      subst (λ p. All IsTimed p.0.objects)
        (request-IsSound Request Response s0 s k refused r progress callback es
          (Runs-IsSound Request Response run) e).0
        (All-append IsTimed s0.objects _ (Runs-IsTimed run) (
          released-IsTimed _ (resolve-IsHandled Request Response refused _ refl refl refl)
              (resolve-IsTimed refused _ refl),
          tt,
        ))
  Runs-IsTimed (completed s id c call reply given before run e under_way) =
      let settled =
        All-get (IsSettled Request Response) s.objects id c (Runs-IsSound Request Response run).0
          e in
      let (alive, out) = alive_pending Request Response c call settled under_way in
      All-set IsTimed s.objects id _ (Runs-IsTimed run) (
        released-IsTimed _
          (handler-IsHandled Request Response call reply (record c { pending = none }) alive refl
            out)
          (handler-IsTimed call reply c (All-get IsTimed s.objects id c (Runs-IsTimed run) e)))
  Runs-IsTimed (expired s id c given before run e on) =
      All-set IsTimed s.objects id _ (Runs-IsTimed run) (expire-IsTimed c)

  waiting :
      (c : Connection Request Response) (callback : ℕ)
      → IsSettled Request Response c
      → c.callback ≡ some callback
      → (call : Call) × (c.pending ≡ some call)
  waiting c callback settled e = ground arith

  expired_call :
      (s : Client Request Response) (id : ℕ) (c : Connection Request Response) (callback : ℕ)
      → c.callback ≡ some callback
      → (expire Request Response s id c).1 ≡ call_back callback (some timed_out) none ∷ []
  unfolding expire stepped close finish
  expired_call s id c callback e = ground (arith, e)

  -- In every run of a client, a connection whose callback waits has a call under way, from the
  -- resolving of the name on, and its timer is still scheduled; when the timer runs, the callback
  -- gets the error `timed_out`, and nothing else is called.
  pub Runs-timer :
      (s : Client Request Response) (given : List ℕ) (effects : List (Effect Request Response))
      (id : ℕ) (c : Connection Request Response) (callback : ℕ)
      → Runs Request Response s given effects
      → get_elem? s.objects id ≡ some c
      → c.callback ≡ some callback
      → ((call : Call) × (c.pending ≡ some call))
        × (c.timer ≡ true)
        × ((expire Request Response s id c).1 ≡ call_back callback (some timed_out) none ∷ [])
  Runs-timer s given effects id c callback run e waits =
      let settled =
        All-get (IsSettled Request Response) s.objects id c (Runs-IsSound Request Response run).0
          e in
      (
        waiting c callback settled waits,
        All-get IsTimed s.objects id c (Runs-IsTimed run) e callback waits,
        expired_call s id c callback waits,
      )
