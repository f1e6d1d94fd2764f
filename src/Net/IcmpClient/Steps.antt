-- ===== src/Net/IcmpClient/Steps.antt =====
-- The runs of a client.
use trunk.Prelude.{ℕ, ◌≡◌, List, [], ◌∷◌, ◌++◌, Option, some, true}
use trunk.Prelude.Result.{Errc}
use trunk.Net.IcmpClient.{
  IcmpClient, Operation, Effect, new_client, find, request, sent, expire, received,
}

-- A client, the callbacks that it was given so far, and what it did so far: requests, ends of sends,
-- datagrams and the timer, in any order, as long as what they do is defined.
pub data Runs : IcmpClient → List ℕ → List Effect → Type 0 where
  start : (pid receive_buffer_size : ℕ) → Runs (new_client pid receive_buffer_size) [] []
  requested :
      (s : IcmpClient) (endpoint : ℕ) (buffer : List ℕ) (callback : ℕ) (given : List ℕ)
      (before : List Effect)
      → Runs s given before
      → Runs
          (request s endpoint buffer callback).0
          (callback ∷ given)
          ((request s endpoint buffer callback).1 ++ before)
  sent_to :
      (s : IcmpClient) (n : ℕ) (o : Operation) (given : List ℕ) (before : List Effect)
      → Runs s given before
      → find n s.operations ≡ some o
      → o.sending ≡ true
      → Runs (sent o s) given before
  arrived :
      (s s' : IcmpClient) (ec : Option Errc) (buffer : List ℕ) (given : List ℕ)
      (before effects : List Effect)
      → Runs s given before
      → s.receiving ≡ true
      → received ec buffer s ≡ some (s', effects)
      → Runs s' given (effects ++ before)
  expired :
      (s s' : IcmpClient) (n : ℕ) (o : Operation) (given : List ℕ) (before effects : List Effect)
      → Runs s given before
      → find n s.operations ≡ some o
      → o.timer ≡ true
      → expire o s ≡ some (s', effects)
      → Runs s' given (effects ++ before)
