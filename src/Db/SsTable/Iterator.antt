-- ===== src/Db/SsTable/Iterator.antt =====
-- db/sstable.h and db/sstable.cc: SSTable::Iterator, and lookup, which is made of it.
-- `none` stands for what C++ leaves undefined, and fuel that ran out.
pub mod Entries
mod Tests
use trunk.Prelude.{
  ℕ, zero, suc, ◌+◌, ◌-◌, ◌*◌, ◌/◌, ◌%◌, ◌^◌, List, [], ◌∷◌, ◌++◌, Option, none, some, Bool, true,
  false, not, ◌&&◌, ◌||◌, ltb, leb, ◌==◌, if◌then◌else◌, length, take, drop, get_elem?, replicate,
}
use trunk.Prelude.Monad.{◌>>=◌}
use trunk.Prelude.Endian.{load}
use trunk.Prelude.Result.{
  Errc, no_message, no_message_available, no_buffer_space, bad_message, Result, ok, err,
}
use trunk.Io.MemoryFile.{resize}
use trunk.Db.SsTable.Reader.{
  Block, SsTable, PositionedFile, load_s32, is_negative, size_of, fill, span_text,
}

pub record Iterator : Type 0 where
  -- the index of the block that `iter_` points to
  pub iter : ℕ
  pub buffer : List ℕ
  pub offset : ℕ

-- `Iterator::key` and `Iterator::value`, of which the lengths stand in the buffer.
unfoldable pub key : Iterator → Option (List ℕ)
key it =
    if ltb (length it.buffer) (it.offset + 4)
    then none
    else span_text it.buffer (it.offset + 8) (size_of (load_s32 it.buffer it.offset))

unfoldable pub value : Iterator → Option (List ℕ)
value it =
    if ltb (length it.buffer) (it.offset + 8)
    then none
    else span_text it.buffer ((it.offset + 8 + size_of (load_s32 it.buffer it.offset)) % 2 ^ 64)
        (size_of (load_s32 it.buffer (it.offset + 4)))

-- `operator<` of `std::string_view`.
unfoldable pub less : List ℕ → List ℕ → Bool
less xs [] = false
less [] (b ∷ bs) = true
less (a ∷ xs) (b ∷ bs) = if a == b then less xs bs else ltb a b

unfoldable pub same_text : List ℕ → List ℕ → Bool
same_text xs ys = not (less xs ys) && not (less ys xs)

module _ (file : PositionedFile) (table : SsTable) where
  -- `Iterator::read` after the call. A short read leaves what the buffer held.
  unfoldable pub read_into : Iterator → List ℕ → Result (List ℕ) → Iterator × Option Errc
  read_into it buffer (err e) = (record it { buffer = buffer }, some e)
  read_into it buffer (ok got) = (record it { buffer = fill buffer got }, none)

  unfoldable pub read : Iterator → Option (Iterator × Option Errc)
  read it = do
    block ← get_elem? table.blocks it.iter
    some (read_into it (resize block.size it.buffer) (file.pread block.offset block.size))

  unfoldable pub start : Iterator → Option (Iterator × Option Errc)
  start it = elim (table.blocks) [
    | [] ↦ some (it, some no_message_available)
    | _ ∷ _ ↦ read (record it { iter = 0; offset = 0 })
  ]

  -- `Iterator::next` at the end of an entry.
  unfoldable pub next_at : ℕ → Iterator → Option (Iterator × Option Errc)
  next_at end it =
      let it' : Iterator = record it { iter = it.iter + 1; offset = end } in
      let following = read (record it { iter = it.iter + 1; offset = 0 }) in
      if not (end == length it.buffer)
      then some (record it { offset = end }, none)
      else if it.iter + 1 == length table.blocks
      then some (it', some no_message_available)
      else following

  unfoldable pub next : Iterator → Option (Iterator × Option Errc)
  next it =
      let key_size = load_s32 it.buffer it.offset in
      let value_size = load_s32 it.buffer (it.offset + 4) in
      let end = (it.offset + 8 + size_of key_size + size_of value_size) % 2 ^ 64 in
      if ltb (length it.buffer) (it.offset + 8)
      then some (it, some no_buffer_space)
      else if ltb (length it.buffer) end
      then some (it, some no_buffer_space)
      else if not (is_negative key_size) && leb (2 ^ 31) (8 + key_size)
      then none
      else next_at end it

  -- `absl::c_lower_bound` over the keys, between two indices.
  unfoldable pub lower_bound : ℕ → List ℕ → ℕ → ℕ → Option ℕ
  lower_bound zero target first count = none
  lower_bound (suc fuel) target first count =
      let middle = first + count / 2 in
      if count == 0 then some first else (do
        (at, size) ← get_elem? table.keys middle
        text ← span_text table.keys_buffer at size
        elim (less text target) [
          | true ↦ lower_bound fuel target (middle + 1) (count - (count / 2 + 1))
          | false ↦ lower_bound fuel target first (count / 2)
        ])

  -- The loop of `seek`.
  unfoldable pub seek_loop : ℕ → List ℕ → Iterator → Option (Iterator × Option Errc)
  seek_loop zero target it = none
  seek_loop (suc fuel) target it = do
    text ← key it
    elim (less text target) [
      | false ↦ some (it, none)
      | true ↦ (do
        (it', ec) ← next it
        elim ec [ some e ↦ some (it', some e) | none ↦ seek_loop fuel target it' ])
    ]

  -- `seek` once the block is known.
  unfoldable pub seek_at : ℕ → List ℕ → ℕ → Iterator → Option (Iterator × Option Errc)
  seek_at fuel target iter it = do
    (it', ec) ← read (record it { iter = iter; offset = 0 })
    elim ec [ some e ↦ some (it', some e) | none ↦ seek_loop fuel target it' ]

  unfoldable pub seek : ℕ → List ℕ → Iterator → Option (Iterator × Option Errc)
  seek fuel target it = do
    iter ← lower_bound (length table.keys + 1) target 0 (length table.keys)
    elim (iter == length table.keys) [
      | true ↦ some (it, some no_message_available)
      | false ↦ seek_at fuel target iter it
    ]

  -- `lookup` where the iterator has stopped.
  unfoldable pub lookup_at : List ℕ → Iterator → Option (Result (List ℕ))
  lookup_at target it = do
    text ← key it
    elim (same_text text target) [
      | false ↦ some (err no_message_available)
      | true ↦ (do found ← value it; some (ok found))
    ]

  unfoldable pub lookup : ℕ → List ℕ → Option (Result (List ℕ))
  lookup fuel target = do
    (it, ec) ← seek fuel target (record { iter = 0; buffer = []; offset = 0 })
    elim ec [ some e ↦ some (err e) | none ↦ lookup_at target it ]
