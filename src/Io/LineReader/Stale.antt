-- ===== src/Io/LineReader/Stale.antt =====
-- `LineReader::read` at the end of the file: the bytes of the buffer come back.
use trunk.Prelude.{ℕ, suc, ◌<◌, ◌≡◌, ap, sym, ◌∙◌, [], ◌++◌, none, some, true, drop, append-nil}
use trunk.Prelude.Result.{ok}
use trunk.Io.File.{File, Source}
use trunk.Io.MemoryFile.{resize}
use trunk.Io.LineReader.{LineReader, scan, refill, scanned, read_loop, read}
use trunk.Io.LineReader.Lines.{pending}

-- A reader whose buffer is used up, at the end of the file: `read` reports the end and an empty
-- line, and leaves the old bytes of the buffer, filled up with zeros, as the text to come.
pub read-at_end :
    (file : File) (source : Source file) (fuel : ℕ) (r : LineReader) (s s' : file.State)
    → 0 < r.capacity
    → drop r.offset r.buffer ≡ []
    → file.read s r.capacity ≡ (s', ok [])
    → (r' : LineReader) × (read file (suc fuel) r s
        ≡ some (record { line = []; end_of_file = some true; error = none }, r', s'))
      × (pending file source r' s' ≡ resize r.capacity r.buffer)
unfolding read read_loop scan scanned refill
read-at_end file source fuel r s s' pos used e = (
  record r { buffer = resize r.capacity r.buffer; offset = 0 },
  rw (used, e),
  ap (λ t. resize r.capacity r.buffer ++ t)
        (sym (source.read-left s s' r.capacity [] e).0 ∙ source.read-end s s' r.capacity pos e)
      ∙ append-nil (resize r.capacity r.buffer),
)
