-- ===== src/Db/SsTable/Builder.antt =====
-- db/sstable.h and db/sstable.cc: SSTableBuilder.
-- `none` stands for a size that does not fit into an int32_t.
pub mod Written
pub mod Table
mod Tests
use trunk.Prelude.{
  ℕ, ◌+◌, ◌^◌, List, [], ◌∷◌, ◌++◌, Option, none, some, Bool, true, false, ◌||◌, ltb, leb,
  if◌then◌else◌, length,
}
use trunk.Prelude.Endian.{store}
use trunk.Prelude.Result.{Errc, Result, ok, err}
use trunk.Io.File.{File}

pub record Block : Type 0 where
  pub offset : ℕ
  pub size : ℕ
  pub last : List ℕ

-- What `add` appends to the buffer.
unfoldable pub entry : List ℕ → List ℕ → List ℕ
entry key value = store 4 (length key) ++ (store 4 (length value) ++ (key ++ value))

-- The block that an entry goes to: the last one, or a new one if that would be too large.
unfoldable pub into_block : ℕ → List ℕ → ℕ → List Block → List Block
into_block block_size key entry_size [] = record { offset = 0; size = entry_size; last = key } ∷ []
into_block block_size key entry_size (b ∷ bs) =
    if ltb block_size (b.size + entry_size)
    then record { offset = b.offset + b.size; size = entry_size; last = key } ∷ b ∷ bs
    else record b { size = b.size + entry_size; last = key } ∷ bs

abbrev pub back_size : List Block → ℕ
back_size [] = 0
back_size (b ∷ bs) = b.size

-- What the first loop appends for a block.
abbrev pub place_of : Block → List ℕ
place_of block = store 8 block.offset ++ (store 4 block.size ++ store 4 (length block.last))

abbrev pub keys_size : List Block → ℕ
keys_size [] = 0
keys_size (b ∷ bs) = keys_size bs + length b.last

abbrev pub footer : List Block → List ℕ
footer blocks = store 4 (length blocks) ++ store 4 (keys_size blocks)

module _ (file : File) where
  open file use {State}

  -- The blocks are held with the last one first.
  pub record SsTableBuilder : Type 0 where
    pub state : State
    pub block_size : ℕ
    pub flush_size : ℕ
    pub buffer : List ℕ
    pub blocks : List Block

  -- `flush` after the call: the number of bytes that were written is not looked at.
  unfoldable pub flushed : SsTableBuilder → State × Result ℕ → SsTableBuilder × Option Errc
  flushed b (s, err e) = (record b { state = s }, some e)
  flushed b (s, ok n) = (record b { state = s; buffer = [] }, none)

  unfoldable pub flush : SsTableBuilder → SsTableBuilder × Option Errc
  flush b = flushed b (file.write b.state b.buffer)

  -- The test that stands behind each addition to the buffer.
  unfoldable pub flush_full : SsTableBuilder → SsTableBuilder × Option Errc
  flush_full b = if leb b.flush_size (length b.buffer) then flush b else (b, none)

  unfoldable pub add : List ℕ → List ℕ → SsTableBuilder → Option (SsTableBuilder × Option Errc)
  add key value b =
      let entry_size = 8 + length key + length value in
      if leb (2 ^ 31) (back_size b.blocks + entry_size)
      then none
      else some (
          flush_full (record b {
            buffer = b.buffer ++ entry key value;
            blocks = into_block b.block_size key entry_size b.blocks;
          }))

  -- A round of a loop of `finish`, and what follows it.
  unfoldable pub and_then :
      (SsTableBuilder → SsTableBuilder × Option Errc)
      → SsTableBuilder × Option Errc
      → SsTableBuilder × Option Errc
  and_then more (b, some e) = (b, some e)
  and_then more (b, none) = more b

  -- A loop of `finish`, over the blocks from the last one on, where `item` is what it appends.
  unfoldable pub finish_loop :
      (Block → List ℕ) → List Block → SsTableBuilder → SsTableBuilder × Option Errc
  finish_loop item [] b = (b, none)
  finish_loop item (block ∷ blocks) b =
      and_then (λ b'. flush_full (record b' { buffer = b'.buffer ++ item block }))
        (finish_loop item blocks b)

  unfoldable pub finish : SsTableBuilder → SsTableBuilder × Option Errc
  finish b =
      and_then
        (λ b'.
          and_then (λ b''. flush (record b'' { buffer = b''.buffer ++ footer b''.blocks }))
            (finish_loop (λ block. block.last) b.blocks b'))
        (finish_loop place_of b.blocks b)
