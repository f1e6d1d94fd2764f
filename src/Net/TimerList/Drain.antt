-- ===== src/Net/TimerList/Drain.antt =====
-- The timer going off again and again.
use trunk.Prelude.{
  ℕ, zero, suc, subst, ◌≤◌, ◌<◌, ◌≡◌, refl, ap, ap₂, sym, ◌∙◌, List, [], ◌∷◌, ◌++◌, Option, none,
  some, length, length-append, All, ◌⊎◌, inl, inr, arith,
}
use trunk.Net.TimerList.{Entry, TimerList, wait, fire, handler}
use trunk.Net.TimerList.Order.{timers, fire-Fired}
use trunk.Net.TimerList.Steps.{
  IsArmed, IsValid, Reach, Reach-IsValid, handler-IsValid, entries-wait,
}

-- Runs of the armed handler, one after the other: the timers whose callbacks run, and the list left.
unfoldable pub expire_all : ℕ → TimerList → List ℕ × TimerList
expire_all zero l = ([], l)
expire_all (suc fuel) l = elim (l.armed) [
  | none ↦ ([], l)
  | some a ↦
      let (fired, l') = handler a l in let (more, l'') = expire_all fuel l' in (fired ++ more, l'')
]

abbrev Drained : ℕ → TimerList → Type 0
Drained fuel l = ((expire_all fuel l).0 ≡ timers l.entries) × ((expire_all fuel l).1.entries ≡ [])

-- The handler waits for just the first entry.
abbrev IsExact : List Entry → Option ℕ → Type 0
IsExact [] armed = armed ≡ none
IsExact (e ∷ es) armed = armed ≡ some e.expiry

timers-append : (xs ys : List Entry) → timers (xs ++ ys) ≡ timers xs ++ timers ys
timers-append [] ys = refl
timers-append (x ∷ xs) ys = ap (λ k. x.timer ∷ k) (timers-append xs ys)

wait-IsExact :
    (d : ℕ) (es : List Entry)
    → let l = wait (record { duration = d; entries = es; armed = none }) in
      IsExact l.entries l.armed
unfolding wait
wait-IsExact d [] = refl
wait-IsExact d (e ∷ es) = refl

-- The callbacks of one run, and those of the runs after it.
Drained-handler :
    (fuel now a : ℕ) (l : TimerList)
    → IsValid now l
    → l.armed ≡ some a
    → Drained fuel ((handler a l).1)
    → Drained (suc fuel) l
unfolding expire_all handler
Drained-handler fuel now a l v is (all, done) =
    let f = fire-Fired a l.entries v.sorted in
    let left : TimerList = record l { entries = (fire a l.entries).1; armed = none } in
    rw is (
      ap₂ ◌++◌ f.names (all ∙ ap timers (entries-wait left))
          ∙ sym (timers-append f.taken ((fire a l.entries).1))
          ∙ ap timers (sym f.split),
      done,
    )

front_cases : (es : List Entry) → (es ≡ []) ⊎ ((e : Entry) × (es' : List Entry) × (es ≡ e ∷ es'))
front_cases [] = inl refl
front_cases (e ∷ es) = inr (e, es, refl)

-- A handler that waits for just the first entry takes that one at least.
fewer_left :
    (now : ℕ) (l : TimerList) (e : Entry) (es : List Entry)
    → IsValid now l
    → l.entries ≡ e ∷ es
    → length ((fire e.expiry l.entries).1) < length l.entries
fewer_left now l e es v is =
    let f = fire-Fired e.expiry l.entries v.sorted in
    elim (front_cases f.taken) [
      | inl none_taken ↦
          let same : (fire e.expiry l.entries).1 ≡ e ∷ es =
            sym (ap (λ t. t ++ (fire e.expiry l.entries).1) none_taken) ∙ sym f.split ∙ is in
          let late : All (λ e'. e.expiry < e'.expiry) (e ∷ es) =
            subst (λ k. All (λ e'. e.expiry < e'.expiry) k) same f.later in
          absurd (omega (arith, late.0))
      | inr (x, xs, some_taken) ↦ omega (
        arith,
        ap (λ (t : List Entry). length t) f.split,
        ap (λ (t : List Entry). length t) some_taken,
        length-append f.taken ((fire e.expiry l.entries).1),
      )
    ]

-- The handler of a list that is not empty, and the runs after it.
run_handler :
    (fuel now a : ℕ) (l : TimerList)
    → IsValid now l
    → l.armed ≡ some a
    → length ((fire a l.entries).1) ≤ fuel
    → ((l' : TimerList)
        → IsValid now l'
        → IsExact l'.entries l'.armed
        → length l'.entries ≤ fuel
        → Drained fuel l')
    → Drained (suc fuel) l
unfolding handler
run_handler fuel now a l v is few drains =
    let kept = entries-wait (record l { entries = (fire a l.entries).1; armed = none }) in
    Drained-handler fuel now a l v is (
      drains ((handler a l).1) (handler-IsValid now a l v)
        (wait-IsExact l.duration ((fire a l.entries).1))
        (omega (arith, few, ap (λ (t : List Entry). length t) kept)))

nothing_to_run : (fuel : ℕ) (l : TimerList) → l.entries ≡ [] → l.armed ≡ none → Drained fuel l
unfolding expire_all
nothing_to_run zero l e is = (sym (ap timers e), e)
nothing_to_run (suc fuel) l e is = (rw is (sym (ap timers e)), rw is e)

exact_drains :
    (fuel now : ℕ) (l : TimerList)
    → IsValid now l
    → IsExact l.entries l.armed
    → length l.entries ≤ fuel
    → Drained fuel l
exact_drains zero now l v x h = elim (front_cases l.entries) [
  | inl e ↦ nothing_to_run zero l e (subst (λ k. IsExact k l.armed) e x)
  | inr (e, es, is) ↦ absurd (omega (arith, ap (λ (t : List Entry). length t) is))
]
exact_drains (suc fuel) now l v x h = elim (front_cases l.entries) [
  | inl e ↦ nothing_to_run (suc fuel) l e (subst (λ k. IsExact k l.armed) e x)
  | inr (e, es, is) ↦
      let exact : IsExact (e ∷ es) l.armed = subst (λ k. IsExact k l.armed) is x in
      run_handler fuel now e.expiry l v exact (omega (arith, fewer_left now l e es v is))
        (λ l' v' x' h'. exact_drains fuel now l' v' x' h')
]

fewer :
    (a : ℕ) (now : ℕ) (l : TimerList)
    → IsValid now l
    → length ((fire a l.entries).1) ≤ length l.entries
fewer a now l v =
    let f = fire-Fired a l.entries v.sorted in
    omega (
      arith,
      ap (λ (t : List Entry). length t) f.split,
      length-append f.taken ((fire a l.entries).1),
    )

-- Whatever the calls have reached, as the handler runs again and again, the callback of every entry
-- runs once, in the order of the list, and none is left, after one run for each entry and one more.
pub expire_all_lem :
    {duration now : ℕ} {l : TimerList} (fuel : ℕ)
    → Reach duration now l
    → length l.entries < fuel
    → ((expire_all fuel l).0 ≡ timers l.entries) × ((expire_all fuel l).1.entries ≡ [])
expire_all_lem zero r h = absurd (omega arith)
expire_all_lem {now = now} {l = l} (suc fuel) r h =
    let v = Reach-IsValid r in
    elim (front_cases l.entries) [
      | inl e ↦ nothing_to_run (suc fuel) l e (subst (λ k. IsArmed k l.armed) e v.waits)
      | inr (e, es, is) ↦
          let (a, armed, k) : IsArmed (e ∷ es) l.armed =
            subst (λ k. IsArmed k l.armed) is v.waits in
          run_handler fuel now a l v armed (omega (arith, fewer a now l v))
            (λ l' v' x' h'. exact_drains fuel now l' v' x' h')
    ]
