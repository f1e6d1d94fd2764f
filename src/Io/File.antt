-- ===== src/Io/File.antt =====
-- io/file.h: the interface of a file, as far as the streams over it use it, and what they rely on.
use trunk.Prelude.{
  ◌⊎◌, inl, inr, Option, none, some, ℕ, zero, suc, ◌+◌, ◌≤◌, ◌<◌, ◌≡◌, refl, ap, sym, ◌∙◌, List, [],
  ◌∷◌, ◌≢◌, ap₂, ◌++◌, take, drop, length, length-take, drop-drop, take_all, take-append-drop,
  arith,
}
use trunk.Prelude.Result.{Errc, Result, ok, err}
use trunk.Io.MemoryFile
use trunk.Io.MemoryFile.{MemoryFile}
use trunk.Io.MemoryFile.Overlay.{front}
use trunk.Io.MemoryFile.Laws.{read-window, front-overlay}

-- A call returns the file as it then is, and the bytes, the count or the error.
pub record File : Type 1 where
  pub State : Type 0
  pub read : State → ℕ → State × Result (List ℕ)
  pub write : State → List ℕ → State × Result ℕ

-- Some call of the file gave the error.
abbrev pub ReadFailed : File → Errc → Type 0
ReadFailed file e = (s : file.State) × (s' : file.State) × (n : ℕ) × (file.read s n ≡ (s', err e))

abbrev pub WriteFailed : File → Errc → Type 0
WriteFailed file e =
    (s : file.State) × (s' : file.State) × (buffer : List ℕ) × (file.write s buffer ≡ (s', err e))

-- What a loop over a file ends with: an error that a call has given, or no error, and all done.
abbrev pub Verdict : (Errc → Type 0) → Type 0 → Option Errc → Type 0
Verdict Failed Done o = ((e : Errc) × (o ≡ some e) × Failed e) ⊎ ((o ≡ none) × Done)

pub verdict :
    {Failed : Errc → Type 0} {Done : Type 0} (o : Option Errc)
    → ((e : Errc) → o ≡ some e → Failed e)
    → (o ≡ none → Done)
    → Verdict Failed Done o
verdict none failed done = inr (refl, done refl)
verdict (some e) failed done = inl (e, refl, failed e refl)

-- A file that is read to its end: `left` is what is still to come.
pub record Source (file : File) : Type 0 where
  pub left : file.State → List ℕ
  pub read-left :
      (s s' : file.State) (n : ℕ) (got : List ℕ)
      → file.read s n ≡ (s', ok got)
      → (left s ≡ got ++ left s') × (length got ≤ n)
  pub read-end : (s s' : file.State) (n : ℕ) → 0 < n → file.read s n ≡ (s', ok []) → left s ≡ []

-- A file that is written front to back: `written` is what has arrived. A write makes progress.
pub record Sink (file : File) : Type 0 where
  pub written : file.State → List ℕ
  pub write-written :
      (s s' : file.State) (buffer : List ℕ) (n : ℕ)
      → file.write s buffer ≡ (s', ok n)
      → (written s' ≡ written s ++ take n buffer) × (n ≤ length buffer)
  pub write-some :
      (s s' : file.State) (buffer : List ℕ) (n : ℕ)
      → 0 < length buffer
      → file.write s buffer ≡ (s', ok n)
      → 0 < n
  pub write-err :
      (s s' : file.State) (buffer : List ℕ) (e : Errc)
      → file.write s buffer ≡ (s', err e)
      → written s' ≡ written s

unfoldable pub state_of {ℓ} :
    {A : Type ℓ} → MemoryFile → Result (A × MemoryFile) → MemoryFile × Result A
state_of f (ok (a, f')) = (f', ok a)
state_of f (err e) = (f, err e)

abbrev pub memory_file : File
memory_file = record {
  State = MemoryFile;
  read = λ f n. state_of f (MemoryFile.read f n);
  write = λ f buffer. state_of f (MemoryFile.write f buffer);
}

nil_of_length : (xs : List ℕ) → length xs ≡ 0 → xs ≡ []
nil_of_length [] h = refl
nil_of_length (x ∷ xs) h = absurd (omega arith)

memory_read :
    (f f' : MemoryFile) (n : ℕ) (got : List ℕ)
    → state_of f (MemoryFile.read f n) ≡ (f', ok got)
    → (got ≡ take n (drop f.position f.content))
      × (f'.content ≡ f.content)
      × (f'.position ≡ f.position + length got)
unfolding state_of
memory_read f f' n got e = ground (arith, read-window f n)

drop-length-take : (n : ℕ) (xs : List ℕ) → drop (length (take n xs)) xs ≡ drop n xs
drop-length-take zero xs = refl
drop-length-take (suc n) [] = refl
drop-length-take (suc n) (x ∷ xs) = drop-length-take n xs

moved :
    (f f' : MemoryFile) (n : ℕ) (got : List ℕ)
    → got ≡ take n (drop f.position f.content)
    → f'.content ≡ f.content
    → f'.position ≡ f.position + length got
    → drop n (drop f.position f.content) ≡ drop f'.position f'.content
moved f f' n got eg ec ep =
    sym (drop-length-take n (drop f.position f.content))
    ∙ ap (λ k. drop (length k) (drop f.position f.content)) (sym eg)
    ∙ drop-drop (length got) f.position f.content
    ∙ ap₂ drop (sym ep) (sym ec)

pub memory_read-left :
    (f f' : MemoryFile) (n : ℕ) (got : List ℕ)
    → state_of f (MemoryFile.read f n) ≡ (f', ok got)
    → (drop f.position f.content ≡ got ++ drop f'.position f'.content) × (length got ≤ n)
memory_read-left f f' n got e =
    let (eg, ec, ep) = memory_read f f' n got e in
    (
      sym (take-append-drop n (drop f.position f.content))
          ∙ ap₂ ◌++◌ (sym eg) (moved f f' n got eg ec ep),
      omega (arith, ap (λ xs. length xs) eg, length-take n (drop f.position f.content)),
    )

pub memory_read-end :
    (f f' : MemoryFile) (n : ℕ)
    → 0 < n
    → state_of f (MemoryFile.read f n) ≡ (f', ok [])
    → drop f.position f.content ≡ []
memory_read-end f f' n h e =
    let (eg, ec, ep) = memory_read f f' n [] e in
    nil_of_length _
      (omega (arith, ap (λ (xs : List ℕ). length xs) eg, length-take n (drop f.position f.content)))

pub memory_write :
    (f f' : MemoryFile) (buffer : List ℕ) (n : ℕ)
    → state_of f (MemoryFile.write f buffer) ≡ (f', ok n)
    → (n ≡ length buffer) × (front f'.position f'.content ≡ front f.position f.content ++ buffer)
unfolding state_of MemoryFile.write
memory_write f f' buffer n e = ground (arith, front-overlay f.position buffer f.content)

pub memory_write-ne-err :
    (f f' : MemoryFile) (buffer : List ℕ) (x : Errc)
    → state_of f (MemoryFile.write f buffer) ≢ (f', err x)
unfolding state_of MemoryFile.write
memory_write-ne-err f f' buffer x e = cc e

pub memory_write-written :
    (f f' : MemoryFile) (buffer : List ℕ) (n : ℕ)
    → state_of f (MemoryFile.write f buffer) ≡ (f', ok n)
    → (front f'.position f'.content ≡ front f.position f.content ++ take n buffer)
      × (n ≤ length buffer)
memory_write-written f f' buffer n e =
    let (all, same) = memory_write f f' buffer n e in
    (
      same ∙ ap (λ t. front f.position f.content ++ t) (sym (take_all n buffer (omega arith))),
      omega arith,
    )

-- A memory file is read to its end, and written front to back.
unfoldable pub memory_source : Source memory_file
memory_source = record {
  left = λ f. drop f.position f.content;
  read-left = memory_read-left;
  read-end = memory_read-end;
}

unfoldable pub memory_sink : Sink memory_file
memory_sink = record {
  written = λ f. front f.position f.content;
  write-written = memory_write-written;
  write-some = λ s s' buffer n h e. omega (arith, (memory_write s s' buffer n e).0);
  write-err = λ s s' buffer x e. absurd (memory_write-ne-err s s' buffer x e);
}
