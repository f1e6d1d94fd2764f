-- ===== src/Net/TimerList/Tests.antt =====
-- Two timers of ten ticks, one of them updated, and the theorems at what they reach.
use trunk.Prelude.{ap, length, ◌<◌, ◌≡◌, refl, [], ◌∷◌, some, arith}
use trunk.Net.TimerList.{
  TimerList, empty, wait, schedule, is_scheduled, remove, update, fire, handler,
}
use trunk.Net.TimerList.Order.{timers}
use trunk.Net.TimerList.Drain.{expire_all, expire_all_lem}
use trunk.Net.TimerList.Steps.{
  IsValid, Reach, Reach.start, Reach.next, Step.scheduled, Step.updated, Step.tick, Step.handled,
  Reach-IsValid,
}

-- Timer 7 at time 0, timer 8 at time 3, and timer 7 once more at time 4.
abbrev two_timers : TimerList
two_timers = update 4 7 (schedule 3 8 (schedule 0 7 (empty 10)))

two_timers_entries : two_timers ≡ record {
  duration = 10;
  entries = record { expiry = 13; timer = 8 } ∷ record { expiry = 14; timer = 7 } ∷ [];
  armed = some 10;
}
unfolding update schedule wait is_scheduled remove empty
two_timers_entries = refl

reached : Reach 10 4 two_timers
reached =
    next
      (next
        (next (next (next (start 0) (scheduled 0 7 (empty 10))) (tick 0 3 _ (omega arith)))
          (scheduled 3 8 _))
        (tick 3 4 _ (omega arith)))
      (updated 4 7 _)

Reach-IsValid_example : IsValid 4 two_timers
Reach-IsValid_example = Reach-IsValid reached

-- The handler of the first schedule finds nothing due, and the next one waits for timer 8.
abbrev rearmed : TimerList
rearmed = (handler 10 two_timers).1

rearmed_armed : rearmed.armed ≡ some 13
unfolding update schedule wait is_scheduled remove empty handler fire
rearmed_armed = refl

fired : (handler 13 rearmed).0 ≡ 8 ∷ []
unfolding update schedule wait is_scheduled remove empty handler fire
fired = refl

two_timers_armed : two_timers.armed ≡ some 10
unfolding update schedule wait is_scheduled remove empty
two_timers_armed = refl

rearmed_reached : Reach 10 10 rearmed
rearmed_reached =
    next (next reached (tick 4 10 _ (omega arith)))
      (handled 10 10 two_timers two_timers_armed (omega arith))

expire_all_lem_example :
    ((expire_all 3 two_timers).0 ≡ timers two_timers.entries)
    × ((expire_all 3 two_timers).1.entries ≡ [])
expire_all_lem_example = expire_all_lem 3 reached few
  where
    few : length two_timers.entries < 3
    few = omega (arith, ap (λ (l : TimerList). length l.entries) two_timers_entries)
