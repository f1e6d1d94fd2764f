-- ===== src/Net/IcmpClient/Counts.antt =====
-- How often each callback is called.
use trunk.Prelude.{
  one_if, count, ℕ, zero, suc, ◌+◌, ◌≡◌, refl, ap, subst, sym, List, [], ◌∷◌, ◌++◌, Option, none,
  some, Option-cases, true, false, ◌==◌, if◌then◌else◌, if_true, if_false, Bool-cases, inl, inr,
  arith,
}
use trunk.Prelude.Result.{Errc, timed_out}
use trunk.Net.IcmpClient.{
  IcmpClient, Operation, Effect, call_back, async_send_to, new_client, find, update, put_back,
  release, finish, request, sent, expire, receive, received,
}
use trunk.Net.IcmpClient.Steps.{Runs, start, requested, sent_to, arrived, expired}
use trunk.Net.IcmpClient.Operations.{All-unit, find-All, received-cases}
use trunk.Net.IcmpClient.Alive.{IsAlive, Runs-IsAlive}

-- How often the callback `n` is called.
abbrev pub calls : ℕ → List Effect → ℕ
calls n [] = 0
calls n (call_back m ec found ∷ es) = one_if n m + calls n es
calls n (async_send_to endpoint bytes ∷ es) = calls n es

abbrev waits : ℕ → Operation → ℕ
waits n o = if o.called then 0 else one_if n o.callback

-- How many operations wait for their reply with the callback `n`.
abbrev pub waiting : ℕ → List Operation → ℕ
waiting n [] = 0
waiting n (o ∷ os) = waits n o + waiting n os

calls-append : (n : ℕ) (xs ys : List Effect) → calls n (xs ++ ys) ≡ calls n xs + calls n ys
calls-append n [] ys = omega arith
calls-append n (call_back m ec found ∷ xs) ys = omega (arith, calls-append n xs ys)
calls-append n (async_send_to endpoint bytes ∷ xs) ys = calls-append n xs ys

waiting-put_back :
    (n refs : ℕ) (o : Operation) (os : List Operation)
    → (refs ≡ 0 → waits n o ≡ 0)
    → waiting n (put_back refs o os) ≡ waiting n os + waits n o
unfolding put_back
waiting-put_back n zero o os h = omega (arith, h refl)
waiting-put_back n (suc refs) o os h = omega arith

waiting-update :
    (n i : ℕ) (o o' : Operation) (os : List Operation)
    → find i os ≡ some o
    → o'.sequence_number ≡ i
    → (o'.refs ≡ 0 → waits n o' ≡ 0)
    → waiting n (update o' os) + waits n o ≡ waiting n os + waits n o'
unfolding update find
waiting-update n i o o' [] e same h = absurd (cc e)
waiting-update n i o o' (x ∷ os) e same h = elim (Bool-cases (x.sequence_number == i)) [
  | inl here ↦
      let is : x ≡ o = ground (arith, e, here) in
      omega (
        arith,
        ap (waiting n) (
            if_true (x.sequence_number == o'.sequence_number) (put_back o'.refs o' os)
              (x ∷ update o' os) (subst (λ j. (x.sequence_number == j) ≡ true) (sym same) here)),
        waiting-put_back n o'.refs o' os h,
        ap (waits n) is,
      )
  | inr other ↦ omega (
    arith,
    ap (waiting n) (
        if_false (x.sequence_number == o'.sequence_number) (put_back o'.refs o' os)
          (x ∷ update o' os) (subst (λ j. (x.sequence_number == j) ≡ false) (sym same) other)),
    waiting-update n i o o' os (ground (arith, e, other)) same h,
  )
]

-- What finishing an operation does to the counts.
finish-waiting :
    (n i : ℕ) (ec : Option Errc) (found : List ℕ) (o o' : Operation) (s s' : IcmpClient)
    (effects : List Effect)
    → find i s.operations ≡ some o
    → o.sequence_number ≡ i
    → o'.sequence_number ≡ i
    → o'.called ≡ o.called
    → o'.callback ≡ o.callback
    → finish ec found o' s ≡ some (s', effects)
    → calls n effects + waiting n s'.operations ≡ waiting n s.operations
unfolding finish release
finish-waiting n i ec found o o' s s' effects e at at' called callback h =
    elim (Bool-cases o'.called) [
      | inl twice ↦ absurd (ground (arith, h, twice))
      | inr once ↦
          let ends = finished once in
          omega (
            arith,
            ap (λ q. calls n q.1 + waiting n q.0.operations) ends,
            waiting-update n i o (release (record o' { called = true })) s.operations e at'
                (λ _. refl),
            was once,
          )
    ]
  where
    now : IcmpClient × List Effect
    now = (
      record s { operations = update (release (record o' { called = true })) s.operations },
      call_back o'.callback ec found ∷ [],
    )

    finished : o'.called ≡ false → now ≡ (s', effects)
    finished once = ground (arith, h, once)

    was : o'.called ≡ false → waits n o ≡ one_if n o'.callback
    was once = ground (arith, once, called, callback)

received-waiting :
    (n : ℕ) (ec : Option Errc) (buffer : List ℕ) (s s' : IcmpClient) (effects : List Effect)
    → received ec buffer s ≡ some (s', effects)
    → calls n effects + waiting n s'.operations ≡ waiting n s.operations
received-waiting n ec buffer s s' effects h = elim (received-cases ec buffer s s' effects h) [
  | inl (left, nothing) ↦ omega (arith, ap (waiting n) left, ap (calls n) nothing)
  | inr (i, o, found, s'', at, ends, left) ↦
      let is = (find-All (λ _. Unit {0}) i s.operations o (All-unit s.operations) at).1 in
      omega (
        arith,
        ap (waiting n) left,
        finish-waiting n i none found o o s s'' effects at is is refl refl ends,
      )
]

request-waiting :
    (n : ℕ) (s : IcmpClient) (endpoint : ℕ) (buffer : List ℕ) (callback : ℕ)
    → calls n (request s endpoint buffer callback).1
        + waiting n (request s endpoint buffer callback).0.operations
      ≡ one_if n callback + waiting n s.operations
unfolding request
request-waiting n s endpoint buffer callback =
    elim (Option-cases (find s.next_sequence_number s.operations)) [
      | inl free ↦ rw (request, waiting, calls, free) (omega arith)
      | inr (o, taken) ↦ rw (request, waiting, calls, taken) (omega arith)
    ]

sent-waiting :
    (n i : ℕ) (s : IcmpClient) (o : Operation)
    → find i s.operations ≡ some o
    → IsAlive o
    → o.sending ≡ true
    → waiting n (sent o s).operations ≡ waiting n s.operations
unfolding sent release
sent-waiting n i s o at alive under_way =
    let is = (find-All (λ _. Unit {0}) i s.operations o (All-unit s.operations) at).1 in
    omega (
      arith,
      waiting-update n i o (release (record o { sending = false })) s.operations at is
          (λ gone. ground (arith, gone, alive)),
    )

-- In every run of a client in which everything that was done is defined, each callback that was
-- given to it has been called or is that of an operation which waits for its reply, exactly as many
-- times as it was given.
pub Runs-waiting :
    {s : IcmpClient} {given : List ℕ} {effects : List Effect} (n : ℕ)
    → Runs s given effects
    → calls n effects + waiting n s.operations ≡ count n given
unfolding new_client receive expire
Runs-waiting n (start pid receive_buffer_size) = refl
Runs-waiting n (requested s endpoint buffer callback given before run) = omega (
  arith,
  Runs-waiting n run,
  request-waiting n s endpoint buffer callback,
  calls-append n (request s endpoint buffer callback).1 before,
)
Runs-waiting n (sent_to s i o given before run at under_way) = omega (
  arith,
  Runs-waiting n run,
  sent-waiting n i s o at (find-All IsAlive i s.operations o (Runs-IsAlive run) at).0 under_way,
)
Runs-waiting n (arrived s s' ec buffer given before effects run on h) = omega (
  arith,
  Runs-waiting n run,
  received-waiting n ec buffer s s' effects h,
  calls-append n effects before,
)
Runs-waiting n (expired s s' i o given before effects run at on h) =
    let is = (find-All (λ _. Unit {0}) i s.operations o (All-unit s.operations) at).1 in
    omega (
      arith,
      Runs-waiting n run,
      finish-waiting n i (some timed_out) [] o (record o { timer = false }) s s' effects at is is
          refl refl h,
      calls-append n effects before,
    )
