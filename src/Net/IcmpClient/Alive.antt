-- ===== src/Net/IcmpClient/Alive.antt =====
-- The operations that are alive.
use trunk.Prelude.{
  ℕ, ◌+◌, ◌-◌, ◌≡◌, refl, ◌<◌, subst, sym, List, [], ◌∷◌, Option, none, some, Option-cases, true,
  false, if◌then◌else◌, if_false, Bool-cases, inl, inr, All, arith,
}
use trunk.Prelude.Result.{Errc, timed_out}
use trunk.Net.IcmpClient.{
  IcmpClient, Operation, Effect, call_back, new_client, find, update, release, finish, request,
  sent, expire, receive,
}
use trunk.Net.IcmpClient.Steps.{Runs, start, requested, sent_to, arrived, expired}
use trunk.Net.IcmpClient.Operations.{find-All, update-All, received-cases}

-- What refers to an operation: the handler of its send, and itself until its callback is called;
-- until then its timer is scheduled.
abbrev pub IsAlive : Operation → Type 0
IsAlive o =
    (o.refs ≡ (if o.sending then 1 else 0) + (if o.called then 0 else 1))
    × (0 < o.refs)
    × (o.called ≡ false → o.timer ≡ true)

finish-IsAlive :
    (ec : Option Errc) (found : List ℕ) (o : Operation) (s s' : IcmpClient) (effects : List Effect)
    → All IsAlive s.operations
    → (o.refs ≡ (if o.sending then 1 else 0) + (if o.called then 0 else 1))
    → finish ec found o s ≡ some (s', effects)
    → All IsAlive s'.operations
unfolding finish release
finish-IsAlive ec found o s s' effects all refs h = elim (Bool-cases o.called) [
  | inl twice ↦ absurd (ground (arith, h, twice))
  | inr once ↦
      let o' : Operation = release (record o { called = true }) in
      let left : update o' s.operations ≡ s'.operations = ground (arith, h, once) in
      subst (All IsAlive) left (update-All IsAlive o' s.operations all (λ more. alive once more))
]
  where
    alive : o.called ≡ false → 0 < o.refs - 1 → IsAlive (release (record o { called = true }))
    alive once more = ground arith

request-IsAlive :
    (s : IcmpClient) (endpoint : ℕ) (buffer : List ℕ) (callback : ℕ)
    → All IsAlive s.operations
    → All IsAlive (request s endpoint buffer callback).0.operations
unfolding request
request-IsAlive s endpoint buffer callback all =
    elim (Option-cases (find s.next_sequence_number s.operations)) [
      | inl free ↦ rw (request, free) ((refl, omega arith, λ _. refl), all)
      | inr (o, taken) ↦ rw (request, taken) all
    ]

sent-IsAlive :
    (s : IcmpClient) (o : Operation)
    → All IsAlive s.operations
    → IsAlive o
    → o.sending ≡ true
    → All IsAlive (sent o s).operations
unfolding sent release
sent-IsAlive s o all alive under_way =
    update-All IsAlive (release (record o { sending = false })) s.operations all
      (λ more. ground (arith, more, alive, under_way))

-- In every run of a client in which everything that was done is defined, the operations of the map
-- are referred to by the handlers of their sends and by themselves until they finish, and the timer
-- of each that waits for its reply is scheduled.
pub Runs-IsAlive :
    {s : IcmpClient} {given : List ℕ} {effects : List Effect}
    → Runs s given effects
    → All IsAlive s.operations
unfolding new_client receive expire
Runs-IsAlive (start pid receive_buffer_size) = tt
Runs-IsAlive (requested s endpoint buffer callback given before run) =
    request-IsAlive s endpoint buffer callback (Runs-IsAlive run)
Runs-IsAlive (sent_to s n o given before run at under_way) =
    sent-IsAlive s o (Runs-IsAlive run) (find-All IsAlive n s.operations o (Runs-IsAlive run) at).0
      under_way
Runs-IsAlive (arrived s s' ec buffer given before effects run on h) =
    elim (received-cases ec buffer s s' effects h) [
      | inl (left, nothing) ↦ subst (All IsAlive) (sym left) (Runs-IsAlive run)
      | inr (i, o, found, s'', at, ends, left) ↦ subst (All IsAlive) (sym left) (
          finish-IsAlive none found o s s'' effects (Runs-IsAlive run)
            (find-All IsAlive i s.operations o (Runs-IsAlive run) at).0.0 ends)
    ]
Runs-IsAlive (expired s s' n o given before effects run at on h) =
    finish-IsAlive _ [] (record o { timer = false }) s s' effects (Runs-IsAlive run)
      (find-All IsAlive n s.operations o (Runs-IsAlive run) at).0.0 h

-- In every run of a client in which everything that was done is defined, an operation of the map
-- whose callback has not been called has its timer scheduled, and when the timer runs, the callback
-- gets the error `timed_out`.
pub Runs-expire :
    (s : IcmpClient) (given : List ℕ) (effects : List Effect) (n : ℕ) (o : Operation)
    → Runs s given effects
    → find n s.operations ≡ some o
    → o.called ≡ false
    → (o.timer ≡ true)
      × ((s' : IcmpClient) × (expire o s
            ≡ some (s', call_back o.callback (some timed_out) [] ∷ [])))
unfolding expire finish
Runs-expire s given effects n o run at waits =
    let alive = (find-All IsAlive n s.operations o (Runs-IsAlive run) at).0 in
    (
      alive.2 waits,
      (
        record s {
          operations = update (release (record o { timer = false; called = true })) s.operations;
        },
        if_false _ _ _ waits,
      ),
    )
