-- ===== src/Net/Http/Server/Tests.antt =====
-- A connection whose request is answered after its timer.
use trunk.Prelude.{◌≡◌, refl, ℕ, [], ◌∷◌, none, some, true, false}
use trunk.Prelude.Result.{Errc}
use trunk.Net.Http.Server.{
  async_read, handling, handler, Connection, new_connection, read, close, update_timer, handle,
  handled, returned, read_done,
}
use trunk.Net.Http.Server.Steps.{Runs, start, was_read, expired}
use trunk.Net.Http.Server.Turns.{client, turns, turn_of, Runs-turns}
use trunk.Net.Http.Server.Late.{Runs-handled}

abbrev fresh : Connection ℕ ℕ
fresh = record {
  stream = true;
  request = none;
  response = 0;
  timer = true;
  pending = some async_read;
}

abbrev busy : Connection ℕ ℕ
busy = record {
  stream = true;
  request = some 5;
  response = 0;
  timer = true;
  pending = some handling;
}

abbrev late : Connection ℕ ℕ
late = record busy { stream = false; timer = false }

begun : Runs ℕ ℕ fresh []
unfolding new_connection read
begun = start 0

asked : Runs ℕ ℕ busy (handler 5 ∷ [])
unfolding read_done returned handle update_timer
asked = was_read fresh busy none 5 none [] (handler 5 ∷ []) begun refl refl

timed_out : Runs ℕ ℕ late (handler 5 ∷ [])
unfolding close
timed_out = expired busy (handler 5 ∷ []) asked refl

-- A handler that fails at once closes the connection, whose timer is then updated.
failed_at_once : (e : Errc) → read_done ℕ ℕ none 5 (some (some e, 6)) fresh ≡ none
unfolding read_done returned handled handle update_timer close
failed_at_once e = refl

Runs-handled_example : handled ℕ ℕ none 6 late ≡ none
Runs-handled_example = Runs-handled ℕ ℕ late (handler 5 ∷ []) 6 timed_out

Runs-turns_example : turns ℕ ℕ client (handler 5 ∷ []) ≡ some (turn_of ℕ ℕ handling)
Runs-turns_example = Runs-turns ℕ ℕ busy (handler 5 ∷ []) handling asked refl
