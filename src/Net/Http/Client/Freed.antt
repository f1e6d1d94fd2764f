-- ===== src/Net/Http/Client/Freed.antt =====
-- The connections of the pool: all of them have been destroyed.
use trunk.Prelude.{
  All-set, All-get, ℕ, ◌≡◌, ◌≢◌, refl, sym, subst, ap, List, ◌∷◌, Option, none, some, true, false,
  if_false, List-cases, inl, inr, All, All-append, get_elem?, set, get_elem?-set_self,
  get_elem?-set_ne, get_elem?-append_left, ◌∙◌, arith,
}
use trunk.Prelude.Result.{Errc}
use trunk.Net.Http.Client.{
  ConnectionKey, Call, Fate, stays, closes, pools, Pool, find, Reply, Client, Effect, new_client,
  handler, released, pooled, stepped, complete, expire, close, request_again, request_new, request,
}
use trunk.Net.Http.Client.Entries.{AllPooled, find-All, put-All, AllPooled-map}
use trunk.Net.Http.Client.Settled.{
  IsSettled, IsHandled, Conn, released-IsSettled, handler-IsHandled, handler-pools,
  resolve-IsHandled, close-IsHandled,
}
use trunk.Net.Http.Client.Steps.{Runs, start, requested, completed, expired}

module _ (Request Response : Type 0) where
  -- A connection that has been destroyed.
  abbrev pub IsFreed : List (Conn Request Response) → ℕ → Type 0
  IsFreed objects id =
      (c : Conn Request Response) × (get_elem? objects id ≡ some c) × (c.freed ≡ true)

  -- What holds of a client between two steps.
  abbrev pub IsSound : Client Request Response → Type 0
  IsSound s =
      All (IsSettled Request Response) s.objects × AllPooled (IsFreed s.objects) s.connections

  IsFreed-set :
      (objects : List (Conn Request Response)) (id : ℕ) (c c' : Conn Request Response)
      → get_elem? objects id ≡ some c
      → c.freed ≡ false
      → (id' : ℕ) → IsFreed objects id'
      → IsFreed (set objects id c') id'
  IsFreed-set objects id c c' e alive id' (d, e', freed) =
      (d, get_elem?-set_ne objects id id' c' other ∙ e', freed)
    where
      other : id ≢ id'
      other same = absurd (grind arith)

  pub alive_pending :
      (c : Conn Request Response) (call : Call)
      → IsSettled Request Response c
      → c.pending ≡ some call
      → (c.freed ≡ false) × (c.connections_iter ≡ false)
  alive_pending c call settled e = ground arith

  released-freed :
      (c : Conn Request Response) → c.pending ≡ none → (released Request Response c).freed ≡ true
  unfolding released
  released-freed c e = ground arith

  pooled-All :
      (P : ℕ → Type 0) (fate : Fate) (c : Conn Request Response) (id : ℕ) (pool : Pool)
      → c.connections_iter ≡ false
      → (fate ≡ pools → P id)
      → AllPooled P pool
      → AllPooled P (pooled Request Response fate c id pool)
  unfolding pooled
  pooled-All P stays c id pool out h all = all
  pooled-All P closes c id pool out h all = subst (AllPooled P) (sym (if_false _ _ _ out)) all
  pooled-All P pools c id pool out h all =
      put-All P c.key (id ∷ find c.key pool) pool (h refl, find-All P c.key pool all) all

  timer_alive :
      (c : Conn Request Response)
      → IsSettled Request Response c
      → c.timer ≡ true
      → ((call : Call) × (c.pending ≡ some call)) × (c.freed ≡ false) × (c.connections_iter ≡ false)
  timer_alive c settled e = ground arith

  -- A step of a connection that is alive and not in the pool.
  stepped-IsSound :
      (s : Client Request Response) (id : ℕ) (c before c' : Conn Request Response)
      (effects : List (Effect Request Response)) (fate : Fate)
      → IsSound s
      → get_elem? s.objects id ≡ some c
      → c.freed ≡ false
      → before.connections_iter ≡ false
      → IsHandled Request Response c'
      → (fate ≡ pools → c'.pending ≡ none)
      → IsSound (stepped Request Response s id before (c', effects, fate)).0
  unfolding stepped
  stepped-IsSound s id c before c' effects fate (settled, freed) e alive out handled h =
      let r : Conn Request Response = released Request Response c' in
      (
        All-set (IsSettled Request Response) s.objects id r settled
            (released-IsSettled Request Response c' handled),
        pooled-All (IsFreed (set s.objects id r)) fate before id s.connections out
            (λ e'. (r, get_elem?-set_self s.objects id r c e, released-freed c' (h e')))
            (AllPooled-map (IsFreed s.objects) (IsFreed (set s.objects id r)) s.connections
              (IsFreed-set s.objects id c r e alive) freed),
      )

  complete-IsSound :
      (s : Client Request Response) (id : ℕ) (c : Conn Request Response) (call : Call)
      (reply : Reply Request Response)
      → IsSound s
      → get_elem? s.objects id ≡ some c
      → c.pending ≡ some call
      → IsSound (complete Request Response s id c call reply).0
  unfolding complete
  complete-IsSound s id c call reply sound e under_way =
      let c1 : Conn Request Response = record c { pending = none } in
      let r : Conn Request Response × List (Effect Request Response) × Fate =
        handler Request Response call reply c1 in
      let settled = All-get (IsSettled Request Response) s.objects id c sound.0 e in
      let (alive, out) = alive_pending c call settled under_way in
      stepped-IsSound s id c c r.0 r.1 r.2 sound e alive out
        (handler-IsHandled Request Response call reply c1 alive refl out)
        (handler-pools Request Response call reply c1 refl)

  expire-IsSound :
      (s : Client Request Response) (id : ℕ) (c : Conn Request Response)
      → IsSound s
      → get_elem? s.objects id ≡ some c
      → c.timer ≡ true
      → IsSound (expire Request Response s id c).0
  unfolding expire
  expire-IsSound s id c sound e on =
      let c1 : Conn Request Response = record c { timer = false } in
      let r : Conn Request Response × List (Effect Request Response) = close Request Response c1 in
      let settled = All-get (IsSettled Request Response) s.objects id c sound.0 e in
      let ((call, under_way), alive, out) = timer_alive c settled on in
      stepped-IsSound s id c c r.0 r.1 closes sound e alive out
        (close-IsHandled Request Response c1 call alive under_way) (λ e'. absurd (cc e'))

  request_new-IsSound :
      (s : Client Request Response) (k : ConnectionKey) (refused : Option Errc) (r : Request)
      (progress : Option ℕ) (callback : ℕ)
      → IsSound s
      → IsSound (request_new Request Response s k refused r progress callback).0
  unfolding request_new
  request_new-IsSound s k refused r progress callback (settled, freed) = (
    All-append (IsSettled Request Response) s.objects _ settled (
      released-IsSettled Request Response _
          (resolve-IsHandled Request Response refused _ refl refl refl),
      tt,
    ),
    AllPooled-map (IsFreed s.objects) _ s.connections
        (λ id (c, e, gone). (c, get_elem?-append_left s.objects _ id c e, gone)) freed,
  )

  request_again-freed :
      (s : Client Request Response) (k : ConnectionKey) (id : ℕ) (ids : List ℕ) (r : Request)
      (progress : Option ℕ) (callback : ℕ) (c : Conn Request Response)
      → get_elem? s.objects id ≡ some c
      → c.freed ≡ true
      → request_again Request Response s k id ids r progress callback ≡ none
  unfolding request_again
  request_again-freed s k id ids r progress callback c e gone = ground (arith, e, gone)

  -- A connection of the pool has been destroyed.
  request-freed :
      (s : Client Request Response) (k : ConnectionKey) (id : ℕ) (ids : List ℕ)
      (refused : Option Errc) (r : Request) (progress : Option ℕ) (callback : ℕ)
      → IsSound s
      → find k s.connections ≡ id ∷ ids
      → request Request Response s k refused r progress callback ≡ none
  unfolding request
  request-freed s k id ids refused r progress callback (settled, freed) e =
      let all : All (IsFreed s.objects) (id ∷ ids) =
        subst (All (IsFreed s.objects)) e (find-All (IsFreed s.objects) k s.connections freed) in
      let (c, at, gone) = all.0 in
      rw (request, e) (request_again-freed s k id ids r progress callback c at gone)

  pub request-IsSound :
      (s s' : Client Request Response) (k : ConnectionKey) (refused : Option Errc) (r : Request)
      (progress : Option ℕ) (callback : ℕ) (effects : List (Effect Request Response))
      → IsSound s
      → request Request Response s k refused r progress callback ≡ some (s', effects)
      → (request_new Request Response s k refused r progress callback ≡ (s', effects)) × IsSound s'
  unfolding request
  request-IsSound s s' k refused r progress callback effects sound e =
      elim (List-cases (find k s.connections)) [
        | inl nothing ↦
            let made : request_new Request Response s k refused r progress callback
                ≡ (s', effects) =
              ground (arith, e, nothing) in
            (
              made,
              subst IsSound (ap (λ p. p.0) made)
                  (request_new-IsSound s k refused r progress callback sound),
            )
        | inr (id, ids, some_there) ↦
            absurd (cc (e, request-freed s k id ids refused r progress callback sound some_there))
      ]

  pub Runs-IsSound :
      {s : Client Request Response} {given : List ℕ} {effects : List (Effect Request Response)}
      → Runs Request Response s given effects
      → IsSound s
  unfolding new_client
  Runs-IsSound start = (tt, tt)
  Runs-IsSound (requested s0 s k refused r progress callback given0 before es run e) =
      (request-IsSound s0 s k refused r progress callback es (Runs-IsSound run) e).1
  Runs-IsSound (completed s0 id c call reply given0 before run e under_way) =
      complete-IsSound s0 id c call reply (Runs-IsSound run) e under_way
  Runs-IsSound (expired s0 id c given0 before run e on) =
      expire-IsSound s0 id c (Runs-IsSound run) e on

  -- In every run of a client, a request for a protocol, host and port under which the pool has a
  -- connection uses a connection that has been destroyed, for the pool does not hold on to the
  -- connections, and the handler that finished the last response did.
  pub request-pooled :
      (s : Client Request Response) (given : List ℕ) (effects : List (Effect Request Response))
      (k : ConnectionKey) (id : ℕ) (ids : List ℕ) (refused : Option Errc) (r : Request)
      (progress : Option ℕ) (callback : ℕ)
      → Runs Request Response s given effects
      → find k s.connections ≡ id ∷ ids
      → request Request Response s k refused r progress callback ≡ none
  request-pooled s given effects k id ids refused r progress callback run e =
      request-freed s k id ids refused r progress callback (Runs-IsSound run) e
