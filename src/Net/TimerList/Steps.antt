-- ===== src/Net/TimerList/Steps.antt =====
-- The list between the calls: the timer waits while there are entries, and never too long.
use trunk.Prelude.{
  All-map, ℕ, suc, ◌+◌, ◌≤◌, ◌<◌, ◌≡◌, refl, ap, sym, ◌∙◌, List, [], ◌∷◌, ◌++◌, Option, none, some,
  true, false, ◌==◌, if◌then◌else◌, length, length-append, All, arith,
}
use trunk.Net.TimerList.{
  Entry, TimerList, empty, wait, schedule, is_scheduled, remove, update, disarm_empty, cancel, fire,
  handler,
}
use trunk.Net.TimerList.Order.{
  IsSorted, timers, All-snoc, IsSorted-snoc, All-remove, remove-IsSorted, fire-Fired,
}

-- A handler waits for no later than the front, exactly while there are entries.
abbrev pub IsArmed : List Entry → Option ℕ → Type 0
IsArmed [] armed = armed ≡ none
IsArmed (e ∷ es) armed = (a : ℕ) × (armed ≡ some a) × (a ≤ e.expiry)

pub record IsValid (now : ℕ) (l : TimerList) : Type 0 where
  pub sorted : IsSorted l.entries
  pub soon : All (λ e. e.expiry ≤ now + l.duration) l.entries
  pub waits : IsArmed l.entries l.armed

front_after :
    (e : Entry) (es : List Entry) (x : Entry) (armed : Option ℕ)
    → All (λ e'. e.expiry ≤ e'.expiry) es
    → e.expiry ≤ x.expiry
    → IsArmed (e ∷ es) armed
    → IsArmed (es ++ (x ∷ [])) armed
front_after e [] x armed all h (a, is, k) = (a, is, omega arith)
front_after e (e' ∷ es) x armed (h', all) h (a, is, k) = (a, is, omega arith)

moved-IsArmed :
    (timer : ℕ) (e : Entry) (es : List Entry) (x : Entry) (armed : Option ℕ)
    → All (λ e'. e.expiry ≤ e'.expiry) es
    → e.expiry ≤ x.expiry
    → IsArmed (e ∷ es) armed
    → IsArmed (remove timer (e ∷ es) ++ (x ∷ [])) armed
unfolding remove
moved-IsArmed timer e es x armed all h w =
    elim (e.timer == timer)
      as (λ b. IsArmed ((if b then es else e ∷ remove timer es) ++ (x ∷ [])) armed) [
        | true ↦ front_after e es x armed all h w
        | false ↦ w
      ]

-- Time goes by.
tick-IsValid : (now later : ℕ) (l : TimerList) → now ≤ later → IsValid now l → IsValid later l
tick-IsValid now later l h v = record {
  sorted = v.sorted;
  soon =
      All-map (λ e. e.expiry ≤ now + l.duration) (λ e. e.expiry ≤ later + l.duration) l.entries
        (λ e k. omega arith) v.soon;
  waits = v.waits;
}

not_alone : (es : List Entry) (x : Entry) → (suc (length (es ++ (x ∷ []))) == 1) ≡ false
not_alone es x = ground (arith, length-append es (x ∷ []))

-- The handlers of `wait` and `cancel` look at the front.
wait-IsValid :
    (now d : ℕ) (es : List Entry)
    → IsSorted es
    → All (λ e. e.expiry ≤ now + d) es
    → IsValid now (wait (record { duration = d; entries = es; armed = none }))
unfolding wait
wait-IsValid now d [] s soon = record { sorted = s; soon = soon; waits = refl }
wait-IsValid now d (e ∷ es) s soon = record {
  sorted = s;
  soon = soon;
  waits = (e.expiry, refl, omega arith);
}

disarm_empty-IsValid :
    (now d a : ℕ) (es : List Entry)
    → IsSorted es
    → All (λ e. e.expiry ≤ now + d) es
    → All (λ e. a ≤ e.expiry) es
    → IsValid now (disarm_empty (record { duration = d; entries = es; armed = some a }))
unfolding disarm_empty
disarm_empty-IsValid now d a [] s soon all = record { sorted = s; soon = soon; waits = refl }
disarm_empty-IsValid now d a (e ∷ es) s soon (h, all) = record {
  sorted = s;
  soon = soon;
  waits = (a, refl, h);
}

schedule_onto :
    (now timer d : ℕ) (es : List Entry) (armed : Option ℕ)
    → IsSorted es
    → All (λ e. e.expiry ≤ now + d) es
    → IsArmed es armed
    → IsValid now (schedule now timer (record { duration = d; entries = es; armed = armed }))
unfolding schedule wait
schedule_onto now timer d [] armed s soon w = record {
  sorted = (tt, tt);
  soon = (omega arith, tt);
  waits = (now + d, refl, omega arith);
}
schedule_onto now timer d (e ∷ es) armed s soon w =
    let x : Entry = record { expiry = now + d; timer = timer } in
    rw (not_alone es x) (record {
      sorted = IsSorted-snoc (e ∷ es) x soon s;
      soon = All-snoc (λ e'. e'.expiry ≤ now + d) (e ∷ es) x soon (omega arith);
      waits = w;
    })

update_onto :
    (now timer d : ℕ) (es : List Entry) (armed : Option ℕ)
    → IsSorted es
    → All (λ e. e.expiry ≤ now + d) es
    → IsArmed es armed
    → IsValid now (update now timer (record { duration = d; entries = es; armed = armed }))
unfolding update is_scheduled
update_onto now timer d [] armed s soon w = record { sorted = s; soon = soon; waits = w }
update_onto now timer d (e ∷ es) armed s soon w =
    let x : Entry = record { expiry = now + d; timer = timer } in
    elim (is_scheduled timer (e ∷ es))
      as (λ b. IsValid now (
        if b
        then record { duration = d; entries = remove timer (e ∷ es) ++ (x ∷ []); armed = armed }
        else record { duration = d; entries = e ∷ es; armed = armed })) [
          | true ↦ record {
            sorted =
                IsSorted-snoc (remove timer (e ∷ es)) x
                  (All-remove (λ e'. e'.expiry ≤ now + d) timer (e ∷ es) soon)
                  (remove-IsSorted timer (e ∷ es) s);
            soon =
                All-snoc (λ e'. e'.expiry ≤ now + d) (remove timer (e ∷ es)) x
                  (All-remove (λ e'. e'.expiry ≤ now + d) timer (e ∷ es) soon) (omega arith);
            waits = moved-IsArmed timer e es x armed s.0 soon.0 w;
          }
          | false ↦ record { sorted = s; soon = soon; waits = w }
        ]

cancel_from :
    (now timer d : ℕ) (es : List Entry) (armed : Option ℕ)
    → IsSorted es
    → All (λ e. e.expiry ≤ now + d) es
    → IsArmed es armed
    → IsValid now (cancel timer (record { duration = d; entries = es; armed = armed }))
unfolding cancel is_scheduled
cancel_from now timer d [] armed s soon w = record { sorted = s; soon = soon; waits = w }
cancel_from now timer d (e ∷ es) armed s soon (a, is, h) =
    elim (is_scheduled timer (e ∷ es))
      as (λ b. IsValid now (
        if b
        then disarm_empty (record { duration = d; entries = remove timer (e ∷ es); armed = armed })
        else record { duration = d; entries = e ∷ es; armed = armed })) [
          | true ↦ rw is (
              disarm_empty-IsValid now d a (remove timer (e ∷ es))
                (remove-IsSorted timer (e ∷ es) s)
                (All-remove (λ e'. e'.expiry ≤ now + d) timer (e ∷ es) soon)
                (All-remove (λ e'. a ≤ e'.expiry) timer (e ∷ es)
                  (
                    h,
                    All-map (λ e'. e.expiry ≤ e'.expiry) (λ e'. a ≤ e'.expiry) es
                        (λ e' k. omega arith) s.0,
                  )))
          | false ↦ record { sorted = s; soon = soon; waits = (a, is, h) }
        ]

All-drop_front : (P : Entry → Type 0) (front es : List Entry) → All P (front ++ es) → All P es
All-drop_front P [] es all = all
All-drop_front P (e ∷ front) es (p, all) = All-drop_front P front es all

pub entries-wait : (l : TimerList) → (wait l).entries ≡ l.entries
unfolding wait
entries-wait l = go l.entries
  where
    go : (es : List Entry) → (wait (record l { entries = es })).entries ≡ es
    go [] = refl
    go (e ∷ es) = refl

pub handler-IsValid :
    (now expiry : ℕ) (l : TimerList) → IsValid now l → IsValid now ((handler expiry l).1)
unfolding handler
handler-IsValid now expiry l v =
    let f = fire-Fired expiry l.entries v.sorted in
    wait-IsValid now l.duration ((fire expiry l.entries).1) f.sorted
      (All-drop_front (λ e. e.expiry ≤ now + l.duration) f.taken _ (rw (sym f.split) v.soon))

-- What can happen: the clock goes on, a timer is scheduled, updated or destroyed, or the handler
-- that waits runs, when its time has come.
pub data Step : ℕ → TimerList → ℕ → TimerList → Type 0 where
  tick : (now later : ℕ) (l : TimerList) → now ≤ later → Step now l later l
  scheduled : (now timer : ℕ) (l : TimerList) → Step now l now (schedule now timer l)
  updated : (now timer : ℕ) (l : TimerList) → Step now l now (update now timer l)
  cancelled : (now timer : ℕ) (l : TimerList) → Step now l now (cancel timer l)
  handled :
      (now expiry : ℕ) (l : TimerList)
      → l.armed ≡ some expiry
      → expiry ≤ now
      → Step now l now ((handler expiry l).1)

pub data Reach (duration : ℕ) : ℕ → TimerList → Type 0 where
  start : (now : ℕ) → Reach duration now (empty duration)
  next :
      {now now' : ℕ} {l l' : TimerList}
      → Reach duration now l
      → Step now l now' l'
      → Reach duration now' l'

Step-IsValid :
    {now now' : ℕ} {l l' : TimerList} → Step now l now' l' → IsValid now l → IsValid now' l'
Step-IsValid (tick now later l h) v = tick-IsValid now later l h v
Step-IsValid (scheduled now timer l) v =
    schedule_onto now timer l.duration l.entries l.armed v.sorted v.soon v.waits
Step-IsValid (updated now timer l) v =
    update_onto now timer l.duration l.entries l.armed v.sorted v.soon v.waits
Step-IsValid (cancelled now timer l) v =
    cancel_from now timer l.duration l.entries l.armed v.sorted v.soon v.waits
Step-IsValid (handled now expiry l is h) v = handler-IsValid now expiry l v

-- After every sequence of calls, ticks of the clock and runs of the handler, the entries are in the
-- order of their expiries, none expires later than the duration from now, and a handler waits
-- exactly while there are entries, for no later than the first.
pub Reach-IsValid : {duration now : ℕ} {l : TimerList} → Reach duration now l → IsValid now l
unfolding empty
Reach-IsValid (start now) = record { sorted = tt; soon = tt; waits = refl }
Reach-IsValid (next r step) = Step-IsValid step (Reach-IsValid r)

-- In every list that the calls can reach, the handler runs the callbacks of the entries that are
-- due, in their order and no others, and leaves the rest with a handler that waits for their first.
handler_lem :
    {duration now : ℕ} {l : TimerList} (expiry : ℕ)
    → Reach duration now l
    → (due : List Entry) × (l.entries ≡ due ++ (handler expiry l).1.entries)
      × ((handler expiry l).0 ≡ timers due)
      × All (λ e. e.expiry ≤ expiry) due
      × All (λ e. expiry < e.expiry) ((handler expiry l).1.entries)
      × IsArmed ((handler expiry l).1.entries) ((handler expiry l).1.armed)
unfolding handler
handler_lem {now = now} {l = l} expiry r =
    let v = Reach-IsValid r in
    let f = fire-Fired expiry l.entries v.sorted in
    let kept = entries-wait (record l { entries = (fire expiry l.entries).1; armed = none }) in
    (
      f.taken,
      f.split ∙ ap (λ es. f.taken ++ es) (sym kept),
      f.names,
      f.due,
      rw kept f.later,
      (handler-IsValid now expiry l v).waits,
    )
