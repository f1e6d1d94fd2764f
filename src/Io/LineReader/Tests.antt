-- ===== src/Io/LineReader/Tests.antt =====
-- Runs of the line reader over a memory file, and its theorems at concrete inputs.
use trunk.Prelude.{ℕ, ◌≡◌, refl, List, [], ◌∷◌, ◌++◌, none, some, true, false, arith}
use trunk.Io.MemoryFile
use trunk.Io.MemoryFile.{MemoryFile, resize}
use trunk.Prelude.{◌⊎◌}
use trunk.Prelude.Result.{Errc}
use trunk.Io.File.{ReadFailed, memory_file, memory_source, state_of}
use trunk.Io.LineReader.{LineReader, Outcome, scan, refill, scanned, read_loop, read}
use trunk.Io.LineReader.Lines.{pending, read_lines}
use trunk.Io.LineReader.Scan.{Free}
use trunk.Io.LineReader.Stale.{read-at_end}

-- "hi", a line feed, "yo", and a line feed.
abbrev greeting : MemoryFile
greeting = record { content = 104 ∷ 105 ∷ 10 ∷ 121 ∷ 111 ∷ 10 ∷ []; position = 0 }

abbrev reader : LineReader
reader = record { delimiter = 10; capacity = 8; buffer = []; offset = 0 }

first_line :
    read memory_file 7 reader greeting
    ≡ some (
      record { line = 104 ∷ 105 ∷ 10 ∷ []; end_of_file = some false; error = none },
      record reader { buffer = greeting.content; offset = 3 },
      record greeting { position = 6 },
    )
unfolding read read_loop scan scanned refill state_of MemoryFile.read
first_line = refl

abbrev at_end : MemoryFile
at_end = record greeting { position = 6 }

abbrev used : LineReader
used = record reader { buffer = greeting.content; offset = 6 }

-- The call that reports the end leaves the bytes of the file in the buffer, to be read once more.
line_after_end :
    (read memory_file 7 used at_end)
    ≡ some (
      record { line = []; end_of_file = some true; error = none },
      record reader { buffer = resize 8 greeting.content; offset = 0 },
      at_end,
    )
unfolding read read_loop scan scanned refill state_of MemoryFile.read
line_after_end = refl

read_lines_example :
    (o : Outcome) × (r' : LineReader) × (s' : MemoryFile) × (read memory_file 7 reader greeting
      ≡ some (o, r', s'))
    × (((e : Errc) × (o.error ≡ some e) × (o.end_of_file ≡ none) × ReadFailed memory_file e)
        ⊎ (((o.error ≡ none)
              × (o.end_of_file ≡ some false)
              × ((front : List ℕ) × Free 10 front
                  × (o.line ≡ front ++ (10 ∷ []))
                  × (greeting.content ≡ o.line ++ pending memory_file memory_source r' s')))
            ⊎ ((o.error ≡ none)
                × (o.end_of_file ≡ some true)
                × Free 10 greeting.content
                × (o.line ≡ greeting.content)
                × (memory_source.left s' ≡ []))))
unfolding memory_source
read_lines_example =
    read_lines memory_file memory_source 7 reader greeting (omega arith) (omega arith)

read-at_end_example :
    (r' : LineReader) × (read memory_file 1 used at_end
      ≡ some (record { line = []; end_of_file = some true; error = none }, r', at_end))
    × (pending memory_file memory_source r' at_end ≡ resize 8 greeting.content)
unfolding state_of MemoryFile.read
read-at_end_example =
    read-at_end memory_file memory_source 0 used at_end at_end (omega arith) refl refl
