-- ===== src/Db/SsTable/Reader.antt =====
-- db/sstable.h and db/sstable.cc: SSTable, up to its iterator.
-- An int32_t is held as the number with its bits, and `size_of` is its conversion to size_t. `none`
-- stands for what C++ leaves undefined, and a vector of a negative length.
use trunk.Prelude.{
  ℕ, zero, suc, ◌+◌, ◌-◌, ◌*◌, ◌%◌, ◌^◌, List, [], ◌∷◌, ◌++◌, Option, none, some, Bool, not, ◌&&◌,
  ◌||◌, ltb, leb, ◌==◌, if◌then◌else◌, length, take, drop, replicate,
}
use trunk.Prelude.Endian.{load}
use trunk.Prelude.Result.{no_message, no_buffer_space, bad_message, Result, ok, err}

-- `io::File`, as far as a table uses it: its size, and the bytes at a position, a negative one given
-- by its bits.
pub record PositionedFile : Type 0 where
  pub size : Result ℕ
  pub pread : ℕ → ℕ → Result (List ℕ)

abbrev pub max_block_size : ℕ
max_block_size = 16777216

abbrev pub load_s32 : List ℕ → ℕ → ℕ
load_s32 bytes offset = load (take 4 (drop offset bytes))

abbrev pub load_s64 : List ℕ → ℕ → ℕ
load_s64 bytes offset = load (take 8 (drop offset bytes))

abbrev pub is_negative : ℕ → Bool
is_negative v = leb (2 ^ 31) v

unfoldable pub size_of : ℕ → ℕ
size_of v = if is_negative v then v + (2 ^ 64 - 2 ^ 32) else v

-- What a value adds, and what it takes away.
abbrev pub up : ℕ → ℕ
up v = if is_negative v then 0 else v

abbrev pub down : ℕ → ℕ
down v = if is_negative v then 2 ^ 32 - v else 0

-- Whether a difference of numbers is a value of int32_t.
abbrev pub fits : ℕ → ℕ → Bool
fits a b = ltb a (2 ^ 31 + b) && leb b (2 ^ 31 + a)

-- A buffer after `pread` into it.
abbrev pub fill : List ℕ → List ℕ → List ℕ
fill buffer got = got ++ drop (length got) buffer

pub record Block : Type 0 where
  pub offset : ℕ
  pub size : ℕ

pub record SsTable : Type 0 where
  pub blocks : List Block
  -- where a key begins in `keys_buffer`, and its length
  pub keys : List (ℕ × ℕ)
  pub keys_buffer : List ℕ

-- The characters of a span, if they are in the buffer.
unfoldable pub span_text : List ℕ → ℕ → ℕ → Option (List ℕ)
span_text bytes start size =
    if leb (start + size) (length bytes) then some (take size (drop start bytes)) else none

-- The loop of `init`, for so many blocks more: the places and keys, or an error.
unfoldable pub init_loop : ℕ → List ℕ → ℕ → ℕ → Result (List Block × List (ℕ × ℕ))
init_loop zero blocks_buffer keys_length keys_offset = ok ([], [])
init_loop (suc left) blocks_buffer keys_length keys_offset =
    let size = load_s32 blocks_buffer 8 in
    let key_size = size_of (load_s32 blocks_buffer 12) in
    let next = (keys_offset + key_size) % 2 ^ 64 in
    let rest = init_loop left (drop 16 blocks_buffer) keys_length next in
    if size == 0 || (is_negative size || ltb max_block_size size)
    then err bad_message
    else if ltb keys_length next
    then err no_buffer_space
    else elim rest [
      | err e ↦ err e
      | ok (blocks, keys) ↦ ok (
        record { offset = load_s64 blocks_buffer 0; size = size } ∷ blocks,
        (keys_offset, key_size) ∷ keys,
      )
    ]

-- The end of `init`, with the bytes of the places and of the keys.
unfoldable pub init_blocks : ℕ → List ℕ → List ℕ → Result SsTable
init_blocks num_blocks blocks_buffer keys_buffer =
    elim (init_loop num_blocks blocks_buffer (length keys_buffer) 0) [
      | err e ↦ err e
      | ok (blocks, keys) ↦ ok (record { blocks = blocks; keys = keys; keys_buffer = keys_buffer })
    ]

unfoldable pub init_keys : PositionedFile → ℕ → ℕ → ℕ → List ℕ → Option (Result SsTable)
init_keys file file_size num_blocks keys_size blocks_buffer =
    if is_negative keys_size
    then none
    else elim (file.pread (file_size - (keys_size + 8)) keys_size) [
      | err e ↦ some (err e)
      | ok got ↦ some (init_blocks num_blocks blocks_buffer (fill (replicate keys_size 0) got))
    ]

-- `init` from the two numbers on.
unfoldable pub init_sizes : PositionedFile → ℕ → ℕ → ℕ → Option (Result SsTable)
init_sizes file file_size num_blocks keys_size =
    let a = up num_blocks * 16 + up keys_size in
    let b = down num_blocks * 16 + down keys_size in
    if not (fits (up num_blocks * 16) (down num_blocks * 16) && (fits a b && fits (a + 8) b))
    then none
    else if ltb (file_size + b) (a + 8)
    then some (err no_buffer_space)
    else if is_negative num_blocks
    then none
    else elim (file.pread (file_size + b - (a + 8)) (num_blocks * 16)) [
      | err e ↦ some (err e)
      | ok got ↦
          init_keys file file_size num_blocks keys_size (fill (replicate (num_blocks * 16) 0) got)
    ]

-- What the first `pread` leaves in the array, where an error and a short read are not looked at.
unfoldable pub ending : List ℕ → Result (List ℕ) → List ℕ
ending garbage (err e) = garbage
ending garbage (ok got) = fill garbage got

-- `init`, where the array on the stack holds some eight bytes at first.
unfoldable pub init : PositionedFile → List ℕ → Option (Result SsTable)
init file garbage = elim (file.size) [
  | err e ↦ some (err e)
  | ok file_size ↦
      let buffer = ending garbage (file.pread (file_size - 8) 8) in
      if ltb file_size 8
      then some (err no_message)
      else init_sizes file file_size (load_s32 buffer 0) (load_s32 buffer 4)
]
