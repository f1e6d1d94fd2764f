-- ===== src/Io/LineReader.antt =====
-- io/line-reader.h and io/line-reader.cc: lines out of a buffered file.
mod Scan
pub mod Lines
pub mod Stale
mod Tests
use trunk.Prelude.{
  ℕ, zero, suc, ◌+◌, ◌-◌, List, [], ◌∷◌, ◌++◌, Option, none, some, Bool, true, false, ◌==◌,
  if◌then◌else◌, drop, length,
}
use trunk.Prelude.Result.{Errc, Result, ok, err}
use trunk.Io.File.{File}
use trunk.Io.MemoryFile.{resize}

pub record LineReader : Type 0 where
  pub delimiter : ℕ
  -- the capacity of `buffer_`, which is reserved once; `buffer_` never grows beyond it
  pub capacity : ℕ
  pub buffer : List ℕ
  pub offset : ℕ

unfoldable pub new : ℕ → ℕ → LineReader
new delimiter buffer_size = record {
  delimiter = delimiter;
  capacity = buffer_size;
  buffer = [];
  offset = 0;
}

-- What a call leaves in `line` and `end_of_file`, which an error does not set.
pub record Outcome : Type 0 where
  pub line : List ℕ
  pub end_of_file : Option Bool
  pub error : Option Errc

-- The inner loop, over the bytes from `offset_` on: the line, the offset, and whether a delimiter
-- has ended it.
unfoldable pub scan : ℕ → List ℕ → ℕ → List ℕ → List ℕ × ℕ × Bool
scan delimiter [] offset line = (line, offset, false)
scan delimiter (b ∷ bs) offset line =
    let rest = scan delimiter bs (offset + 1) (line ++ (b ∷ [])) in
    if b == delimiter then (line ++ (b ∷ []), offset + 1, true) else rest

abbrev pub Answer : Type 0 → Type 0
Answer State = Option (Outcome × LineReader × State)

module _ {State : Type 0} where
  -- After `file_.read` into the buffer, which has its full size and its old bytes in front: the
  -- bytes read overwrite them, and the first argument goes on with the loop.
  unfoldable pub refill :
      (LineReader → State → List ℕ → Answer State)
      → LineReader
      → List ℕ
      → State × Result (List ℕ)
      → Answer State
  refill more r line (s, err e) =
      some (record { line = line; end_of_file = none; error = some e }, r, s)
  refill more r line (s, ok []) =
      some (record { line = line; end_of_file = some true; error = none }, r, s)
  refill more r line (s, ok (b ∷ bs)) =
      let got : List ℕ = b ∷ bs in
      more (record r { buffer = resize (length got) (got ++ drop (length got) r.buffer) }) s line

  -- One round of the outer loop, after the inner loop.
  unfoldable pub scanned :
      (LineReader → State → List ℕ → Answer State)
      → (State → ℕ → State × Result (List ℕ))
      → LineReader
      → State
      → List ℕ × ℕ × Bool
      → Answer State
  scanned more read r s (line, offset, true) = some (
    record { line = line; end_of_file = some false; error = none },
    record r { offset = offset },
    s,
  )
  scanned more read r s (line, offset, false) =
      refill more (record r { buffer = resize r.capacity r.buffer; offset = 0 }) line
        (read s r.capacity)

module _ (file : File) where
  open file use {State}

  unfoldable pub read_loop : ℕ → LineReader → State → List ℕ → Answer State
  read_loop zero r s line = none
  read_loop (suc fuel) r s line =
      scanned (read_loop fuel) file.read r s
        (scan r.delimiter (drop r.offset r.buffer) r.offset line)

  unfoldable pub read : ℕ → LineReader → State → Answer State
  read fuel r s = read_loop fuel r s []
