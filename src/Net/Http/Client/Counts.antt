-- ===== src/Net/Http/Client/Counts.antt =====
-- How often each callback is called.
use trunk.Prelude.{
  one_if, count, ℕ, zero, suc, ◌+◌, ◌≡◌, refl, ap, List, [], ◌∷◌, ◌++◌, Option, none, some, true,
  false, get_elem?, set, All, arith,
}
use trunk.Prelude.Result.{Errc}
use trunk.Net.Http.Client.{
  ConnectionKey, Call, Fate, Reply, Connection, Client, Effect, call_back, report, new_client,
  finish, keep_alive, wait_for, write, handshake, close, fail, unless_closed, unless_finished,
  header_read, some_read, handler, released, stepped, complete, expire, resolve, request_new,
  closes, async_resolve, async_connect, async_handshake, async_write, async_read_header,
  async_read_some,
}
use trunk.Net.Http.Client.Freed.{request-IsSound, Runs-IsSound}
use trunk.Net.Http.Client.Settled.{IsSettled}
use trunk.Net.Http.Client.Steps.{Runs, start, requested, completed, expired}

abbrev count_option : ℕ → Option ℕ → ℕ
count_option n none = 0
count_option n (some m) = one_if n m

module _ (Request Response : Type 0) where
  -- How often the callback `n` is called.
  abbrev pub calls : ℕ → List (Effect Request Response) → ℕ
  calls n [] = 0
  calls n (call_back m ec response ∷ es) = one_if n m + calls n es
  calls n (report m ∷ es) = calls n es

  -- How many connections hold the callback `n`.
  abbrev held : ℕ → List (Connection Request Response) → ℕ
  held n [] = 0
  held n (c ∷ cs) = count_option n c.callback + held n cs

  calls-append :
      (n : ℕ) (xs ys : List (Effect Request Response))
      → calls n (xs ++ ys) ≡ calls n xs + calls n ys
  calls-append n [] ys = omega arith
  calls-append n (call_back m ec response ∷ xs) ys = omega (arith, calls-append n xs ys)
  calls-append n (report m ∷ xs) ys = calls-append n xs ys

  held-append :
      (n : ℕ) (xs ys : List (Connection Request Response))
      → held n (xs ++ ys) ≡ held n xs + held n ys
  held-append n [] ys = omega arith
  held-append n (c ∷ xs) ys = omega (arith, held-append n xs ys)

  held-set :
      (n : ℕ) (xs : List (Connection Request Response)) (i : ℕ) (c c' : Connection Request Response)
      → get_elem? xs i ≡ some c
      → held n (set xs i c') + count_option n c.callback ≡ held n xs + count_option n c'.callback
  held-set n [] i c c' e = absurd (cc e)
  held-set n (x ∷ xs) zero c c' e =
      let same : count_option n x.callback ≡ count_option n c.callback =
        ap (λ o. elim o [ none ↦ 0 | some y ↦ count_option n y.callback ]) e in
      omega (arith, same)
  held-set n (x ∷ xs) (suc i) c c' e = omega (arith, held-set n xs i c c' e)

  -- What a step of a connection does with the callback that it holds.
  abbrev Keeps :
      ℕ
      → Connection Request Response
      → Connection Request Response
      → List (Effect Request Response)
      → Type 0
  Keeps n c c' effects = calls n effects + count_option n c'.callback ≡ count_option n c.callback

  finish-Keeps :
      (n : ℕ) (ec : Option Errc) (response : Option Response) (c : Connection Request Response)
      → Keeps n c
          (finish Request Response ec response c).0
          (finish Request Response ec response c).1
  unfolding finish
  finish-Keeps n ec response c = ground arith

  handler-Keeps :
      (n : ℕ) (call : Call) (reply : Reply Request Response) (c : Connection Request Response)
      → Keeps n c
          (handler Request Response call reply c).0
          (handler Request Response call reply c).1
  unfolding handler unless_finished unless_closed fail close header_read some_read handshake write
      wait_for keep_alive finish
  handler-Keeps n async_resolve reply c = ground arith
  handler-Keeps n async_connect reply c = ground arith
  handler-Keeps n async_handshake reply c = ground arith
  handler-Keeps n async_write reply c = ground arith
  handler-Keeps n async_read_header reply c = ground arith
  handler-Keeps n async_read_some reply c = ground arith

  close-Keeps :
      (n : ℕ) (c : Connection Request Response)
      → Keeps n c (close Request Response c).0 (close Request Response c).1
  unfolding close finish
  close-Keeps n c = ground arith

  resolve-Keeps :
      (n : ℕ) (refused : Option Errc) (c : Connection Request Response)
      → Keeps n c (resolve Request Response refused c).0 (resolve Request Response refused c).1
  unfolding resolve finish wait_for
  resolve-Keeps n refused c = ground arith

  released-callback :
      (c : Connection Request Response) → (released Request Response c).callback ≡ c.callback
  unfolding released
  released-callback c = ground arith

  -- A step of a client: the callbacks that were called or are held by a connection.
  stepped-held :
      (n : ℕ) (s : Client Request Response) (id : ℕ) (c c' : Connection Request Response)
      (effects : List (Effect Request Response)) (fate : Fate)
      → get_elem? s.objects id ≡ some c
      → Keeps n c c' effects
      → calls n effects + held n (stepped Request Response s id c (c', effects, fate)).0.objects
        ≡ held n s.objects
  unfolding stepped
  stepped-held n s id c c' effects fate e keeps = omega (
    arith,
    held-set n s.objects id c (released Request Response c') e,
    ap (count_option n) (released-callback c'),
    keeps,
  )

  complete-held :
      (n : ℕ) (s : Client Request Response) (id : ℕ) (c : Connection Request Response) (call : Call)
      (reply : Reply Request Response)
      → get_elem? s.objects id ≡ some c
      → calls n (complete Request Response s id c call reply).1
          + held n (complete Request Response s id c call reply).0.objects
        ≡ held n s.objects
  unfolding complete stepped
  complete-held n s id c call reply e =
      let r : Connection Request Response × List (Effect Request Response) × Fate =
        handler Request Response call reply (record c { pending = none }) in
      stepped-held n s id c r.0 r.1 r.2 e (handler-Keeps n call reply (record c { pending = none }))

  expire-held :
      (n : ℕ) (s : Client Request Response) (id : ℕ) (c : Connection Request Response)
      → get_elem? s.objects id ≡ some c
      → calls n (expire Request Response s id c).1
          + held n (expire Request Response s id c).0.objects
        ≡ held n s.objects
  unfolding expire stepped
  expire-held n s id c e =
      let r : Connection Request Response × List (Effect Request Response) =
        close Request Response (record c { timer = false }) in
      stepped-held n s id c r.0 r.1 closes e (close-Keeps n (record c { timer = false }))

  request_new-held :
      (n : ℕ) (s : Client Request Response) (k : ConnectionKey) (refused : Option Errc)
      (r : Request) (progress : Option ℕ) (callback : ℕ)
      → calls n (request_new Request Response s k refused r progress callback).1
          + held n (request_new Request Response s k refused r progress callback).0.objects
        ≡ one_if n callback + held n s.objects
  unfolding request_new
  request_new-held n s k refused r progress callback =
      let c : Connection Request Response = record {
        key = k;
        request = some r;
        progress_callback = progress;
        callback = some callback;
        connections_iter = false;
        stream = true;
        timer = true;
        pending = none;
        freed = false;
      } in
      let d : Connection Request Response × List (Effect Request Response) =
        resolve Request Response refused c in
      omega (
        arith,
        held-append n s.objects (released Request Response d.0 ∷ []),
        ap (count_option n) (released-callback d.0),
        resolve-Keeps n refused c,
      )

  -- In every run of a client, each callback that was given to it has been called or is held by a
  -- connection, exactly as many times as it was given: none is lost, and none is called twice for
  -- one request.
  Runs-calls :
      {s : Client Request Response} {given : List ℕ} {effects : List (Effect Request Response)}
      (n : ℕ)
      → Runs Request Response s given effects
      → calls n effects + held n s.objects ≡ count n given
  unfolding new_client
  Runs-calls n start = refl
  Runs-calls n (requested s0 s k refused r progress callback given before es run e) =
      let made =
        (request-IsSound Request Response s0 s k refused r progress callback es
          (Runs-IsSound Request Response run) e).0 in
      omega (
        arith,
        Runs-calls n run,
        calls-append n es before,
        request_new-held n s0 k refused r progress callback,
        ap (λ p. calls n p.1 + held n p.0.objects) made,
      )
  Runs-calls n (completed s id c call reply given before run e under_way) = omega (
    arith,
    Runs-calls n run,
    calls-append n (complete Request Response s id c call reply).1 before,
    complete-held n s id c call reply e,
  )
  Runs-calls n (expired s id c given before run e on) = omega (
    arith,
    Runs-calls n run,
    calls-append n (expire Request Response s id c).1 before,
    expire-held n s id c e,
  )

  settled-callback :
      (n : ℕ) (c : Connection Request Response)
      → IsSettled Request Response c
      → c.pending ≡ none
      → count_option n c.callback ≡ 0
  settled-callback n c settled e = ground arith

  held-idle :
      (n : ℕ) (cs : List (Connection Request Response))
      → All (IsSettled Request Response) cs
      → All (λ c. c.pending ≡ none) cs
      → held n cs ≡ 0
  held-idle n [] settled idle = refl
  held-idle n (c ∷ cs) (settled, settleds) (idle, idles) =
      omega (arith, settled-callback n c settled idle, held-idle n cs settleds idles)

  -- In every run of a client after which no connection has a call under way, each callback was
  -- called exactly as many times as it was given.
  pub Runs-answered :
      (s : Client Request Response) (given : List ℕ) (effects : List (Effect Request Response))
      (n : ℕ)
      → Runs Request Response s given effects
      → All (λ c. c.pending ≡ none) s.objects
      → calls n effects ≡ count n given
  Runs-answered s given effects n run idle =
      omega
        (arith, Runs-calls n run, held-idle n s.objects (Runs-IsSound Request Response run).0 idle)
