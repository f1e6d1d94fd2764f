-- ===== src/Db/SsTable/Builder/Tests.antt =====
-- Runs of the builder, and its theorem at concrete entries in memory.
use trunk.Prelude.{ℕ, ◌≡◌, refl, List, [], ◌∷◌, ◌++◌, none, some}
use trunk.Io.MemoryFile
use trunk.Io.MemoryFile.{MemoryFile}
use trunk.Io.File.{memory_file, memory_sink, memory_write, state_of}
use trunk.Db.SsTable.Builder.{
  Block, SsTableBuilder, into_block, flushed, flush, flush_full, entry, add, finish, finish_loop,
  and_then, place_of, footer,
}
use trunk.Db.SsTable.Builder.Written.{items, entries, Parts}
use trunk.Db.SsTable.Builder.Table.{IsWhole, add_then, add_all, table_written}

abbrev builder : SsTableBuilder memory_file
builder = record {
  state = record { content = []; position = 0 };
  block_size = 20;
  flush_size = 16;
  buffer = [];
  blocks = [];
}

abbrev pairs : List (List ℕ × List ℕ)
pairs = (97 ∷ [], 1 ∷ []) ∷ (98 ∷ [], 2 ∷ 3 ∷ []) ∷ []

-- Each entry has a block of its own; one has been flushed, and the other too.
abbrev two_blocks : List Block
two_blocks =
    record { offset = 10; size = 11; last = 98 ∷ [] }
    ∷ record { offset = 0; size = 10; last = 97 ∷ [] }
    ∷ []

abbrev written : List ℕ
written = entry (97 ∷ []) (1 ∷ []) ++ entry (98 ∷ []) (2 ∷ 3 ∷ [])

abbrev built : SsTableBuilder memory_file
built = record builder { state = record { content = written; position = 21 }; blocks = two_blocks }

pairs_added : add_all memory_file pairs builder ≡ some built
unfolding add_all add_then add into_block flushed flush flush_full entry state_of MemoryFile.write
    MemoryFile.overlay
pairs_added = refl

abbrev finished : SsTableBuilder memory_file
finished = (finish memory_file built).0

built_finished : finish memory_file built ≡ (finished, none)
unfolding flushed flush flush_full entry state_of MemoryFile.write MemoryFile.overlay finish
    finish_loop and_then
built_finished = refl

memory_file-IsWhole : IsWhole memory_file
memory_file-IsWhole s s' buffer n e = (memory_write s s' buffer n e).0

table_written_example :
    (memory_sink.written finished.state
      ≡ memory_sink.written builder.state
        ++ (entries pairs
            ++ (items place_of two_blocks
                ++ (items (λ block. block.last) two_blocks ++ footer two_blocks))))
    × Parts two_blocks pairs
table_written_example =
    table_written memory_file memory_sink pairs builder built finished memory_file-IsWhole refl refl
      pairs_added built_finished
