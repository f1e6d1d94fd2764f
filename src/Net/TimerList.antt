-- ===== src/Net/TimerList.antt =====
-- net/timer-list.h: many waits of one duration on one timer (class BasicTimerList).
-- A time is a number of ticks, and `now` what the clock says. An entry names the Timer that it was
-- scheduled for, in place of its callback and its handle; a handle is the end of the list when no
-- entry has its name. What a callback does to the list again is a later call.
pub mod Order
pub mod Steps
pub mod Drain
mod Tests
use trunk.Prelude.{
  ℕ, ◌+◌, List, [], ◌∷◌, ◌++◌, Option, none, some, Bool, true, false, leb, ◌==◌, if◌then◌else◌,
  length,
}

pub record Entry : Type 0 where
  pub expiry : ℕ
  pub timer : ℕ

-- `armed` is the expiry that the waiting handler has captured, if one waits.
pub record TimerList : Type 0 where
  pub duration : ℕ
  pub entries : List Entry
  pub armed : Option ℕ

unfoldable pub empty : ℕ → TimerList
empty duration = record { duration = duration; entries = []; armed = none }

-- `wait`: the timer is set to the expiry of the front, which ends an earlier wait.
unfoldable pub wait : TimerList → TimerList
wait l = elim (l.entries) [ [] ↦ l | e ∷ es ↦ record l { armed = some (e.expiry) } ]

unfoldable pub schedule : ℕ → ℕ → TimerList → TimerList
schedule now timer l =
    let l' = record l {
      entries = l.entries ++ (record { expiry = now + l.duration; timer = timer } ∷ []);
    } in
    if length l'.entries == 1 then wait l' else l'

-- Whether the handle of a timer is not the end of the list.
unfoldable pub is_scheduled : ℕ → List Entry → Bool
is_scheduled timer [] = false
is_scheduled timer (e ∷ es) = if e.timer == timer then true else is_scheduled timer es

-- `std::list::erase`
unfoldable pub remove : ℕ → List Entry → List Entry
remove timer [] = []
remove timer (e ∷ es) = if e.timer == timer then es else e ∷ remove timer es

-- `Timer::update`, and `BasicTimerList::update`, which moves the entry to the end.
unfoldable pub update : ℕ → ℕ → TimerList → TimerList
update now timer l =
    if is_scheduled timer l.entries
    then record l {
      entries =
          remove timer l.entries ++ (record { expiry = now + l.duration; timer = timer } ∷ []);
    }
    else l

-- The test that `cancel` makes once the entry is erased.
unfoldable pub disarm_empty : TimerList → TimerList
disarm_empty l = elim (l.entries) [ [] ↦ record l { armed = none } | e ∷ es ↦ l ]

-- `Timer::~Timer`, and `BasicTimerList::cancel`.
unfoldable pub cancel : ℕ → TimerList → TimerList
cancel timer l =
    if is_scheduled timer l.entries
    then disarm_empty (record l { entries = remove timer l.entries })
    else l

-- The loop of the handler: the timers whose callbacks run, and the entries that are left.
unfoldable pub fire : ℕ → List Entry → List ℕ × List Entry
fire expiry [] = ([], [])
fire expiry (e ∷ es) =
    let (fired, left) = fire expiry es in
    if leb e.expiry expiry then (e.timer ∷ fired, left) else ([], e ∷ es)

-- The handler that waits, once it runs without an error: it waits no longer, unless entries are
-- left.
unfoldable pub handler : ℕ → TimerList → List ℕ × TimerList
handler expiry l =
    let (fired, left) = fire expiry l.entries in
    (fired, wait (record l { entries = left; armed = none }))
