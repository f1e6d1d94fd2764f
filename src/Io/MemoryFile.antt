-- ===== src/Io/MemoryFile.antt =====
-- io/memory-file.h and io/memory-file.cc: a file whose content is a vector of bytes.
-- A buffer to be filled is given by its size, and a call returns the bytes that it copies there.
-- Positions and sizes stay below 2 ^ 63, so that no sum of two of them wraps.
pub mod Overlay
pub mod Laws
mod Tests
use trunk.Prelude.{
  ℕ, ◌+◌, ◌-◌, min, List, ◌++◌, ltb, leb, if◌then◌else◌, take, drop, length, replicate,
}
use trunk.Prelude.Int.{ℤ, pos, negsuc}
use trunk.Prelude.Result.{Result, ok, err, invalid_argument, invalid_seek}

pub record MemoryFile : Type 0 where
  pub content : List ℕ
  pub position : ℕ

-- `std::vector::resize`: cut, or filled up with zeros.
abbrev pub resize : ℕ → List ℕ → List ℕ
resize n xs = take n xs ++ replicate (n - length xs) 0

-- The bytes of [first, last).
abbrev pub slice : ℕ → ℕ → List ℕ → List ℕ
slice first last xs = take (last - first) (drop first xs)

-- `content_.resize` where the file is too short, then the bytes copied to `position`.
unfoldable pub overlay : ℕ → List ℕ → List ℕ → List ℕ
overlay position buffer content =
    let last = position + length buffer in
    let content' = if ltb (length content) last then resize last content else content in
    take position content' ++ (buffer ++ drop last content')

unfoldable pub read : MemoryFile → ℕ → Result (List ℕ × MemoryFile)
read f n =
    let last = min (f.position + n) (length f.content) in
    if leb (length f.content) f.position
    then ok (List.[], f)
    else ok (slice f.position last f.content, record f { position = last })

unfoldable pub write : MemoryFile → List ℕ → Result (ℕ × MemoryFile)
write f buffer = ok (
  length buffer,
  record f { content = overlay f.position buffer f.content; position = f.position + length buffer },
)

unfoldable pub pread : MemoryFile → ℤ → ℕ → Result (List ℕ)
pread f (negsuc _) n = err invalid_argument
pread f (pos position) n =
    let last = min (position + n) (length f.content) in
    if leb (length f.content) position then ok List.[] else ok (slice position last f.content)

unfoldable pub pwrite : MemoryFile → ℤ → List ℕ → Result (ℕ × MemoryFile)
pwrite f (negsuc _) buffer = err invalid_argument
pwrite f (pos position) buffer =
    ok (length buffer, record f { content = overlay position buffer f.content })

unfoldable pub seek : MemoryFile → ℤ → Result MemoryFile
seek f (negsuc _) = err invalid_seek
seek f (pos position) = ok (record f { position = position })

unfoldable pub tell : MemoryFile → Result ℤ
tell f = ok (pos f.position)

unfoldable pub size : MemoryFile → Result ℤ
size f = ok (pos (length f.content))
