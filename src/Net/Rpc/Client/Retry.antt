-- ===== src/Net/Rpc/Client/Retry.antt =====
-- An operation that is never answered: its fragments are sent again until its time is up.
use trunk.Prelude.{
  ℕ, zero, suc, ◌+◌, ◌-◌, ◌*◌, ◌<◌, ◌≤◌, ◌^◌, min, leb, ltb, ◌≡◌, refl, ap, sym, ◌∙◌, List, [], ◌∷◌,
  ◌++◌, map, Option, none, some, true, false, ◌==◌, if◌then◌else◌, Bool-cases, if_true, if_false,
  inl, inr, arith,
}
use trunk.Prelude.Monad.{◌>>=◌}
use trunk.Prelude.Result.{timed_out}
use trunk.Security.Key.{Cipher}
use trunk.Util.FibonacciSequence.{FibonacciSequence, reset, next}
use trunk.Net.Rpc.Assembly.{IntervalSet}
use trunk.Net.Rpc.Client.{Operation, Effect, send_to, wait_for, call_back, abort, send}

-- The waits that effects ask for.
abbrev pub waits : List Effect → List ℕ
waits [] = []
waits (send_to channel endpoint bytes ∷ effects) = waits effects
waits (wait_for n ∷ effects) = n ∷ waits effects
waits (call_back ec response ∷ effects) = waits effects

abbrev pub sum : List ℕ → ℕ
sum [] = 0
sum (n ∷ ns) = n + sum ns

waits-sends :
    (channel endpoint : ℕ) (buffers : List (List ℕ)) (effects : List Effect)
    → waits (map (send_to channel endpoint) buffers ++ effects) ≡ waits effects
waits-sends channel endpoint [] effects = refl
waits-sends channel endpoint (b ∷ buffers) effects = waits-sends channel endpoint buffers effects

-- The pairs of the sequence, by their place.
abbrev nexts : ℕ → FibonacciSequence
nexts zero = record { a = 1; b = 1 }
nexts (suc j) = record { a = (nexts j).b; b = (nexts j).b + (nexts j).a }

nexts-b_44 : (nexts 44).b ≡ 1836311903
nexts-b_44 = refl

nexts-a_le : (j : ℕ) → (nexts j).a ≤ (nexts j).b
nexts-a_le zero = omega arith
nexts-a_le (suc j) = omega arith

nexts-b_le : (j k : ℕ) → (nexts j).b ≤ (nexts (k + j)).b
nexts-b_le j zero = omega (arith, ap (λ n. (nexts n).b) (zero_left j))
  where
    zero_left : (n : ℕ) → n ≡ 0 + n
    zero_left n = omega arith
nexts-b_le j (suc k) = omega (arith, nexts-b_le j k, ap (λ n. (nexts n).b) (suc_left k j))
  where
    suc_left : (n m : ℕ) → suc n + m ≡ suc (n + m)
    suc_left n m = omega arith

-- The pairs up to the 44th, and no others, have a number below 1836311903.
nexts-b_le_44 : (j : ℕ) → j ≤ 44 → (nexts j).b ≤ 1836311903
nexts-b_le_44 j h =
    let whole : (44 - j) + j ≡ 44 = omega arith in
    omega (arith, nexts-b_le j (44 - j), ap (λ n. (nexts n).b) whole, nexts-b_44)

nexts-lt_44 : (j : ℕ) → (nexts j).b < 1836311903 → j < 44
nexts-lt_44 j h = elim (Bool-cases (ltb j 44)) [
  | inl e ↦ ground (arith, e)
  | inr e ↦
      let over : 44 ≤ j = ground (arith, e) in
      let whole : (j - 44) + 44 ≡ j = omega arith in
      absurd (omega (arith, nexts-b_le 44 (j - 44), ap (λ n. (nexts n).b) whole, nexts-b_44))
]

-- Up to there each pair has a next one.
next-nexts : (j : ℕ) → j < 44 → next (2 ^ 31) (nexts j) ≡ some (nexts (suc j))
unfolding next
next-nexts j h =
    let small = nexts-b_le_44 (suc j) (omega arith) in
    if_true (ltb ((nexts j).b + (nexts j).a) (2 ^ 31)) _ _ (ground (arith, small))

mul_le : (r m n : ℕ) → m ≤ n → r * m ≤ r * n
mul_le r m n h = grind arith

min_over : (m n : ℕ) → 0 < n - min m n → n - min m n + m ≡ n
min_over m n h = omega arith

min_split : (m n : ℕ) → min m n + (n - min m n) ≡ n
min_split m n = omega arith

mul_lt : (r m n : ℕ) → r * m < r * n → m < n
mul_lt r m n h = elim (Bool-cases (ltb m n)) [
  | inl e ↦ ground (arith, e)
  | inr e ↦ let over : n ≤ m = ground (arith, e) in absurd (omega (arith, mul_le r n m over))
]

module _ (cipher : Cipher) (sets : IntervalSet) where
  -- What follows a call of `send`: the end, or more.
  unfoldable pub ended_or :
      (Operation cipher sets → Option (List ℕ × Operation cipher sets))
      → Option (Operation cipher sets × List Effect)
      → Option (List ℕ × Operation cipher sets)
  ended_or more none = none
  ended_or more (some (o, effects)) =
      let rest = more o in
      if o.finished
      then some (waits effects, o)
      else do (ws, o') ← rest; some (waits effects ++ ws, o')

  -- `send` as the timer calls it, while no fragment of a response arrives: the waits, and the
  -- operation when it has ended. `none` is fuel that ran out, or a number out of range.
  unfoldable pub unanswered : ℕ → Operation cipher sets → Option (List ℕ × Operation cipher sets)
  unanswered zero o = none
  unanswered (suc fuel) o = ended_or (unanswered fuel) (send cipher sets 0 o)

  -- An operation that sends while there is time left.
  abbrev pub resent : Operation cipher sets → FibonacciSequence → Operation cipher sets
  resent o w = record o {
    options = record (o.options) {
      timeout =
          o.options.timeout - min (o.options.initial_retry * o.wait_sequence.a) o.options.timeout;
    };
    wait_sequence = w;
  }

  pub send_lem :
      (channel : ℕ) (o : Operation cipher sets) (w : FibonacciSequence)
      → 0 < o.options.timeout
      → o.options.initial_retry * o.wait_sequence.a < 2 ^ 63
      → next (2 ^ 31) o.wait_sequence ≡ some w
      → send cipher sets channel o
        ≡ some (
          resent o w,
          map (send_to channel o.endpoint) o.request_buffers
              ++ (wait_for (min (o.options.initial_retry * o.wait_sequence.a) o.options.timeout)
                  ∷ []),
        )
  unfolding send
  send_lem channel o w h small e =
      let wait_period : ℕ = min (o.options.initial_retry * o.wait_sequence.a) o.options.timeout in
      let effects : List Effect =
        map (send_to channel o.endpoint) o.request_buffers ++ (wait_for wait_period ∷ []) in
      if_false (o.options.timeout == 0) _ _ (ground arith)
      ∙ if_false (leb (2 ^ 63) (o.options.initial_retry * o.wait_sequence.a)) _ _ (ground arith)
      ∙ ap (λ r. do w' ← r; some (resent o w', effects)) e

  send_end :
      (channel : ℕ) (o : Operation cipher sets)
      → o.options.timeout ≡ 0
      → o.finished ≡ false
      → send cipher sets channel o
        ≡ some (record o { finished = true; result_ec = some timed_out }, [])
  unfolding send abort
  send_end channel o h e =
      if_true (o.options.timeout == 0) _ _ (ground arith)
      ∙ ap (λ x. some (x, [])) (if_false o.finished _ _ e)

  -- From the place `j` of the sequence on, with what the waits before it leave of the time.
  unanswered_from :
      (fuel j limit : ℕ) (o : Operation cipher sets)
      → o.finished ≡ false
      → o.wait_sequence ≡ nexts j
      → (0 < o.options.timeout → o.options.timeout + o.options.initial_retry * (nexts j).b ≤ limit)
      → limit ≤ o.options.initial_retry * 1836311903
      → limit < 2 ^ 63
      → j ≤ 44
      → 45 ≤ j + fuel
      → (ws : List ℕ) × (o' : Operation cipher sets) × (unanswered fuel o ≡ some (ws, o'))
        × (sum ws ≡ o.options.timeout)
        × (o'.finished ≡ true)
        × (o'.result_ec ≡ some timed_out)
  unfolding unanswered ended_or
  unanswered_from zero j limit o unfinished at left reach fits place enough = absurd (omega arith)
  unanswered_from (suc fuel) j limit o unfinished at left reach fits place enough =
      elim (Bool-cases (o.options.timeout == 0)) [
        | inl over ↦
            let none_left : o.options.timeout ≡ 0 = ground (arith, over) in
            (
              [],
              record o { finished = true; result_ec = some timed_out },
              ap (ended_or (unanswered fuel)) (send_end 0 o none_left unfinished),
              sym none_left,
              refl,
              refl,
            )
        | inr more ↦
            let r : ℕ = o.options.initial_retry in
            let time : ℕ = o.options.timeout in
            let some_left : 0 < time = ground (arith, more) in
            let bound = left some_left in
            let early = nexts-lt_44 j (mul_lt r (nexts j).b 1836311903 (omega arith)) in
            let shorter : r * (nexts j).a ≤ r * (nexts j).b = mul_le r _ _ (nexts-a_le j) in
            let product : r * o.wait_sequence.a ≡ r * (nexts j).a = ap (λ s. r * s.a) at in
            let o' = resent o (nexts (suc j)) in
            let wait : ℕ = min (r * o.wait_sequence.a) time in
            let effects : List Effect =
              map (send_to 0 o.endpoint) o.request_buffers ++ (wait_for wait ∷ []) in
            let splits : r * ((nexts j).b + (nexts j).a) ≡ r * (nexts j).b + r * (nexts j).a =
              omega arith in
            let sent =
              send_lem 0 o (nexts (suc j)) some_left (omega arith)
                (ap (next (2 ^ 31)) at ∙ next-nexts j early) in
            let (ws, ended, is, all, finished, result) =
              unanswered_from fuel (suc j) limit o' unfinished refl
                (λ h.
                  omega (arith, min_over (r * o.wait_sequence.a) time h, splits, product, bound))
                reach fits (omega arith) (omega arith) in
            (
              wait ∷ ws,
              ended,
              ap (ended_or (unanswered fuel)) sent
                  ∙ if_false o.finished _ _ unfinished
                  ∙ ap (λ rest. do (ws', o'') ← rest; some (waits effects ++ ws', o'')) is
                  ∙ ap (λ w. some (w ++ ws, ended))
                      (waits-sends 0 o.endpoint o.request_buffers (wait_for wait ∷ [])),
              omega (arith, all, min_split (r * o.wait_sequence.a) time),
              finished,
              result,
            )
      ]

-- An operation that starts its sequence of waits and is never answered ends with the error of a
-- timeout, within 45 calls of `send`, after waits that add up to its timeout. The conditions: the
-- timeout and the first wait together are less than 2^63 nanoseconds, and the timeout is at most
-- 1836311902 times the first wait.
pub unanswered_ends :
    (cipher : Cipher) (sets : IntervalSet) (fuel : ℕ) (o : Operation cipher sets)
    → o.finished ≡ false
    → o.wait_sequence ≡ reset
    → o.options.timeout + o.options.initial_retry < 2 ^ 63
    → o.options.timeout ≤ o.options.initial_retry * 1836311902
    → 45 ≤ fuel
    → (ws : List ℕ) × (o' : Operation cipher sets) × (unanswered cipher sets fuel o ≡ some (ws, o'))
      × (sum ws ≡ o.options.timeout)
      × (o'.finished ≡ true)
      × (o'.result_ec ≡ some timed_out)
unfolding reset
unanswered_ends cipher sets fuel o unfinished new fits reach enough =
    unanswered_from cipher sets fuel 0 (o.options.timeout + o.options.initial_retry) o unfinished
      new (λ h. omega arith) (omega arith) fits (omega arith) (omega arith)
