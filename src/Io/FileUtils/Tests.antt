-- ===== src/Io/FileUtils/Tests.antt =====
-- Runs of the file utilities over a memory file, and their theorems at concrete inputs.
use trunk.Prelude.{ℕ, ◌≡◌, refl, List, [], ◌∷◌, ◌++◌, Option, none, some, take}
use trunk.Prelude.Result.{Errc}
use trunk.Io.MemoryFile
use trunk.Io.MemoryFile.{MemoryFile}
use trunk.Io.File.{
  ReadFailed, WriteFailed, Verdict, memory_file, memory_source, memory_sink, state_of,
}
use trunk.Io.FileUtils.{read_step, read_loop, read, write}
use trunk.Io.FileUtils.{read_to_end_step, read_to_end_loop, read_to_end}
use trunk.Io.FileUtils.Reads.{read_ends}
use trunk.Io.FileUtils.Writes.{write_ends}

abbrev five : MemoryFile
five = record { content = 1 ∷ 2 ∷ 3 ∷ 4 ∷ 5 ∷ []; position = 1 }

read_three : read memory_file five 3 ≡ some (record five { position = 4 }, 2 ∷ 3 ∷ 4 ∷ [], none)
unfolding read read_loop read_step state_of MemoryFile.read
read_three = refl

read_all :
    read_to_end memory_file 2 5 five ≡ some (record five { position = 5 }, 2 ∷ 3 ∷ 4 ∷ 5 ∷ [], none)
unfolding read_to_end read_to_end_loop read_to_end_step state_of MemoryFile.read
read_all = refl

read_ends_example :
    (r : MemoryFile × List ℕ × Option Errc) × (read memory_file five 3 ≡ some r)
    × Verdict
        (ReadFailed memory_file)
        ((r.1 ≡ 2 ∷ 3 ∷ 4 ∷ []) × (memory_source.left r.0 ≡ 5 ∷ []))
        r.2
unfolding memory_source
read_ends_example = read_ends memory_file memory_source five 3

write_ends_example :
    (r : MemoryFile × Option Errc) × (write memory_file five (8 ∷ 9 ∷ []) ≡ some r)
    × ((n : ℕ) × (memory_sink.written r.0 ≡ (1 ∷ []) ++ take n (8 ∷ 9 ∷ [])))
    × Verdict (WriteFailed memory_file) (memory_sink.written r.0 ≡ 1 ∷ 8 ∷ 9 ∷ []) r.1
unfolding memory_sink
write_ends_example = write_ends memory_file memory_sink five (8 ∷ 9 ∷ [])
