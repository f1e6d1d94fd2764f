-- ===== src/Db/SsTable/Iterator/Tests.antt =====
-- A table that is built in memory and looked up.
use trunk.Prelude.{
  ℕ, ◌≡◌, refl, List, [], ◌∷◌, Option, none, some, length, ◌++◌, ◌+◌, ◌<◌, ◌^◌, arith,
}
use trunk.Prelude.Int.{pos}
use trunk.Prelude.Result.{Result, ok, err, no_message_available}
use trunk.Prelude.Monad.{◌>>=◌}
use trunk.Io.MemoryFile
use trunk.Io.MemoryFile.{MemoryFile}
use trunk.Io.File.{memory_file, state_of}
use trunk.Db.SsTable.Builder
use trunk.Db.SsTable.Builder.{
  SsTableBuilder, into_block, flushed, flush, flush_full, entry, finish, finish_loop, and_then,
}
use trunk.Db.SsTable.Builder.Table.{add_all, add_then}
use trunk.Db.SsTable.Iterator.Entries.{entry_lem, seek_stuck}
use trunk.Db.SsTable.Reader.{
  PositionedFile, SsTable, init, init_sizes, init_keys, init_blocks, init_loop, ending, size_of,
  span_text,
}
use trunk.Db.SsTable.Iterator.{
  Iterator, key, value, less, same_text, read_into, read, next, next_at, lower_bound, seek_loop,
  seek_at, seek, lookup_at, lookup,
}

abbrev no_file : MemoryFile
no_file = record { content = []; position = 0 }

abbrev builder : SsTableBuilder memory_file
builder = record { state = no_file; block_size = 22; flush_size = 16; buffer = []; blocks = [] }

abbrev pairs : List (List ℕ × List ℕ)
pairs = (97 ∷ [], 1 ∷ []) ∷ (98 ∷ [], 2 ∷ 3 ∷ []) ∷ (99 ∷ 100 ∷ [], []) ∷ []

abbrev table_file : Option MemoryFile
table_file = do b ← add_all memory_file pairs builder; some (((finish memory_file b).0).state)

abbrev positioned : MemoryFile → PositionedFile
positioned f = record {
  size = ok (length f.content);
  pread = λ position n. MemoryFile.pread f (pos position) n;
}

-- `init` and `lookup` of the file that was built.
abbrev looked_up : List ℕ → Option (Result (List ℕ))
looked_up target = do
  f ← table_file
  table ← init (positioned f) []
  elim table [ ok t ↦ lookup (positioned f) t 10 target | err e ↦ some (err e) ]

second_found : looked_up (98 ∷ []) ≡ some (ok (2 ∷ 3 ∷ []))
unfolding add_all add_then Builder.add into_block flushed flush flush_full entry finish finish_loop
    and_then state_of MemoryFile.write MemoryFile.overlay MemoryFile.pread init init_sizes init_keys
    init_blocks init_loop ending size_of span_text key value less same_text read_into read next
    next_at lower_bound seek_loop seek_at seek lookup_at lookup
second_found = refl

-- The key of the second block, and its empty value.
third_found : looked_up (99 ∷ 100 ∷ []) ≡ some (ok [])
unfolding add_all add_then Builder.add into_block flushed flush flush_full entry finish finish_loop
    and_then state_of MemoryFile.write MemoryFile.overlay MemoryFile.pread init init_sizes init_keys
    init_blocks init_loop ending size_of span_text key value less same_text read_into read next
    next_at lower_bound seek_loop seek_at seek lookup_at lookup
third_found = refl

not_found : looked_up (99 ∷ []) ≡ some (err no_message_available)
unfolding add_all add_then Builder.add into_block flushed flush flush_full entry finish finish_loop
    and_then state_of MemoryFile.write MemoryFile.overlay MemoryFile.pread init init_sizes init_keys
    init_blocks init_loop ending size_of span_text key value less same_text read_into read next
    next_at lower_bound seek_loop seek_at seek lookup_at lookup
not_found = refl

past_last : looked_up (100 ∷ []) ≡ some (err no_message_available)
unfolding add_all add_then Builder.add into_block flushed flush flush_full entry finish finish_loop
    and_then state_of MemoryFile.write MemoryFile.overlay MemoryFile.pread init init_sizes init_keys
    init_blocks init_loop ending size_of span_text key value less same_text read_into read next
    next_at lower_bound seek_loop seek_at seek lookup_at lookup
past_last = refl

-- An iterator in front of the second of two entries.
abbrev two_entries : List ℕ
two_entries = entry (97 ∷ []) (1 ∷ []) ++ (entry (98 ∷ []) (2 ∷ []) ++ (0 ∷ []))

abbrev no_table : SsTable
no_table = record { blocks = []; keys = []; keys_buffer = [] }

abbrev second : Iterator
second = record { iter = 0; buffer = two_entries; offset = 10 }

two_entries_short : length two_entries < 2 ^ 31
unfolding entry
two_entries_short = omega arith

second_at : 10 ≡ length (entry (97 ∷ []) (1 ∷ []))
unfolding entry
second_at = refl

entry_lem_example :
    (key second ≡ some (98 ∷ []))
    × (value second ≡ some (2 ∷ []))
    × (next (positioned no_file) no_table second
        ≡ some (
          record second {
            offset = length (entry (97 ∷ []) (1 ∷ [])) + length (entry (98 ∷ []) (2 ∷ []));
          },
          none,
        ))
entry_lem_example =
    entry_lem (positioned no_file) no_table (entry (97 ∷ []) (1 ∷ [])) (98 ∷ []) (2 ∷ []) (0 ∷ [])
      second refl second_at two_entries_short (omega arith)

-- A value of -8 bytes.
abbrev short_value : Iterator
short_value = record {
  iter = 0;
  buffer = 0 ∷ 0 ∷ 0 ∷ 0 ∷ 248 ∷ 255 ∷ 255 ∷ 255 ∷ 0 ∷ [];
  offset = 0;
}

seek_stuck_example :
    (key short_value ≡ some [])
    × (next (positioned no_file) no_table short_value ≡ some (short_value, none))
    × (seek_loop (positioned no_file) no_table 1000 (97 ∷ []) short_value ≡ none)
seek_stuck_example =
    seek_stuck (positioned no_file) no_table 1000 (97 ∷ []) short_value refl refl (omega arith)
      (omega arith) (omega arith)
