-- ===== src/Io/FileUtils.antt =====
-- io/file-utils.h and io/file-utils.cc: reading and writing whole buffers, over any file.
-- A loop returns the file, what it read and the error, if any; `none` is fuel that ran out.
pub mod Reads
pub mod Writes
mod Tests
use trunk.Prelude.{ℕ, zero, suc, ◌+◌, ◌-◌, List, [], ◌∷◌, ◌++◌, Option, none, some, drop, length}
use trunk.Prelude.Result.{Errc, Result, ok, err}
use trunk.Io.File.{File}

-- What a reading loop ends with.
abbrev pub Ended : Type 0 → Type 0
Ended State = Option (State × List ℕ × Option Errc)

-- What the loops do with the outcome of a call; the first argument goes on with the loop.
module _ {State : Type 0} where
  unfoldable pub read_step :
      (State → ℕ → List ℕ → Ended State) → ℕ → List ℕ → State × Result (List ℕ) → Ended State
  read_step more n got (s, err e) = some (s, got, some e)
  read_step more n got (s, ok []) = some (s, got, none)
  read_step more n got (s, ok (b ∷ bs)) = more s (n - length (b ∷ bs)) (got ++ (b ∷ bs))

  unfoldable pub write_step :
      (State → List ℕ → Option (State × Option Errc))
      → List ℕ
      → State × Result ℕ
      → Option (State × Option Errc)
  write_step more buffer (s, err e) = some (s, some e)
  write_step more buffer (s, ok n) = more s (drop n buffer)

  unfoldable pub read_to_end_step :
      (State → List ℕ → Ended State) → List ℕ → State × Result (List ℕ) → Ended State
  read_to_end_step more content (s, err e) = some (s, content, some e)
  read_to_end_step more content (s, ok []) = some (s, content, none)
  read_to_end_step more content (s, ok (b ∷ bs)) = more s (content ++ (b ∷ bs))

module _ (file : File) where
  open file use {State}

  -- `read`: rounds until the buffer is full or the file is at its end.
  unfoldable pub read_loop : ℕ → State → ℕ → List ℕ → Ended State
  read_loop zero s n got = none
  read_loop (suc fuel) s zero got = some (s, got, none)
  read_loop (suc fuel) s (suc n) got = read_step (read_loop fuel) (suc n) got (file.read s (suc n))

  -- `write`: rounds until the buffer is used up.
  unfoldable pub write_loop : ℕ → State → List ℕ → Option (State × Option Errc)
  write_loop zero s buffer = none
  write_loop (suc fuel) s [] = some (s, none)
  write_loop (suc fuel) s (b ∷ bs) = write_step (write_loop fuel) (b ∷ bs) (file.write s (b ∷ bs))

  -- `read_to_end`: rounds of `buffer_size` until one of them is empty.
  unfoldable pub read_to_end_loop : ℕ → ℕ → State → List ℕ → Ended State
  read_to_end_loop buffer_size zero s content = none
  read_to_end_loop buffer_size (suc fuel) s content =
      read_to_end_step (read_to_end_loop buffer_size fuel) content (file.read s buffer_size)

  -- Each round takes a byte at least, and one more round sees the end.
  unfoldable pub read : State → ℕ → Ended State
  read s n = read_loop (n + 1) s n []

  unfoldable pub write : State → List ℕ → Option (State × Option Errc)
  write s buffer = write_loop (length buffer + 1) s buffer

  unfoldable pub read_to_end : ℕ → ℕ → State → Ended State
  read_to_end buffer_size fuel s = read_to_end_loop buffer_size fuel s []
