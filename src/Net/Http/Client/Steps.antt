-- ===== src/Net/Http/Client/Steps.antt =====
-- The runs of a client: requests, the ends of the calls under way, and the timer, in any order.
use trunk.Prelude.{ℕ, ◌≡◌, List, [], ◌∷◌, ◌++◌, Option, some, true, get_elem?}
use trunk.Prelude.Result.{Errc}
use trunk.Net.Http.Client.{
  ConnectionKey, Call, Effect, Reply, Connection, Client, new_client, complete, expire, request,
}

module _ (Request Response : Type 0) where
  -- A client, the callbacks that it was given so far, and what it did so far.
  pub data Runs : Client Request Response → List ℕ → List (Effect Request Response) → Type 0 where
    start : Runs (new_client Request Response) [] []
    requested :
        (s s' : Client Request Response) (k : ConnectionKey) (refused : Option Errc) (r : Request)
        (progress : Option ℕ) (callback : ℕ) (given : List ℕ)
        (before effects : List (Effect Request Response))
        → Runs s given before
        → request Request Response s k refused r progress callback ≡ some (s', effects)
        → Runs s' (callback ∷ given) (effects ++ before)
    completed :
        (s : Client Request Response) (id : ℕ) (c : Connection Request Response) (call : Call)
        (reply : Reply Request Response) (given : List ℕ) (before : List (Effect Request Response))
        → Runs s given before
        → get_elem? s.objects id ≡ some c
        → c.pending ≡ some call
        → Runs
            (complete Request Response s id c call reply).0
            given
            ((complete Request Response s id c call reply).1 ++ before)
    expired :
        (s : Client Request Response) (id : ℕ) (c : Connection Request Response) (given : List ℕ)
        (before : List (Effect Request Response))
        → Runs s given before
        → get_elem? s.objects id ≡ some c
        → c.timer ≡ true
        → Runs
            (expire Request Response s id c).0
            given
            ((expire Request Response s id c).1 ++ before)
