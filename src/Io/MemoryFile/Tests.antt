-- ===== src/Io/MemoryFile/Tests.antt =====
-- Runs of the memory file, and its theorems at concrete inputs.
use trunk.Prelude.{◌≡◌, refl, [], ◌∷◌}
use trunk.Prelude.Int.{pos, negsuc}
use trunk.Prelude.Result.{ok, err, invalid_argument, ◌>>=◌}
use trunk.Io.MemoryFile.{MemoryFile, overlay, pread, pwrite}
use trunk.Io.MemoryFile.Laws.{pread-pwrite}

abbrev five : MemoryFile
five = record { content = 1 ∷ 2 ∷ 3 ∷ 4 ∷ 5 ∷ []; position = 3 }

pwrite_past_end :
    pwrite five (pos 7) (9 ∷ [])
    ≡ ok (1, record five { content = 1 ∷ 2 ∷ 3 ∷ 4 ∷ 5 ∷ 0 ∷ 0 ∷ 9 ∷ [] })
unfolding pwrite overlay
pwrite_past_end = refl

pread_negative : pread five (negsuc 0) 2 ≡ err invalid_argument
unfolding pread
pread_negative = refl

pread-pwrite_example : (pwrite five (pos 7) (9 ∷ []) >>= λ (n, f). pread f (pos 7) n) ≡ ok (9 ∷ [])
pread-pwrite_example = pread-pwrite five 7 (9 ∷ [])
