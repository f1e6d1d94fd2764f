-- ===== src/Io/FileUtils/Writes.antt =====
-- `io::write` over a file that is written front to back.
use trunk.Prelude.{
  ℕ, zero, suc, ◌+◌, ◌<◌, ◌≡◌, refl, ap, sym, ◌∙◌, List, [], ◌∷◌, ◌++◌, Option, none, some, take,
  drop, length, length-drop, take-append-drop, take-add, append-nil, append_assoc, arith,
}
use trunk.Prelude.Result.{Errc, Result, ok, err}
use trunk.Io.File.{File, Sink, WriteFailed, Verdict, verdict}
use trunk.Io.FileUtils.{write_step, write_loop, write}

module _ (file : File) (sink : Sink file) where
  open file use {State}
  open sink use {written, write-written, write-some, write-err}

  -- What has arrived is a prefix of the buffer: all of it, if no call failed.
  record Wrote (s : State) (buffer : List ℕ) (r : State × Option Errc) : Type 0 where
    part : (n : ℕ) × (written r.0 ≡ written s ++ take n buffer)
    all : r.1 ≡ none → written r.0 ≡ written s ++ buffer
    failed : (e : Errc) → r.1 ≡ some e → WriteFailed file e

  abbrev Ends : Option (State × Option Errc) → State → List ℕ → Type 0
  Ends o s buffer = (r : State × Option Errc) × (o ≡ some r) × Wrote s buffer r

  -- A round that writes `n` bytes, and the rounds after it.
  Wrote-more :
      (s s' : State) (buffer : List ℕ) (n : ℕ) (r : State × Option Errc)
      → written s' ≡ written s ++ take n buffer
      → Wrote s' (drop n buffer) r
      → Wrote s buffer r
  Wrote-more s s' buffer n r e w = record {
    part = (
      n + w.part.0,
      w.part.1 ∙ joined (take w.part.0 (drop n buffer)) (take-add n w.part.0 buffer),
    );
    all = λ x. w.all x ∙ joined (drop n buffer) (take-append-drop n buffer);
    failed = w.failed;
  }
    where
      joined :
          (xs : List ℕ) {ys : List ℕ}
          → take n buffer ++ xs ≡ ys
          → written s' ++ xs ≡ written s ++ ys
      joined xs h =
          ap (λ t. t ++ xs) e
          ∙ append_assoc (written s) (take n buffer) xs
          ∙ ap (λ t. written s ++ t) h

  write_step-Ends :
      (more : State → List ℕ → Option (State × Option Errc)) (s : State) (b : ℕ) (bs : List ℕ)
      (o : State × Result ℕ)
      → file.write s (b ∷ bs) ≡ o
      → ((s' : State) (buffer : List ℕ)
          → length buffer < length (b ∷ bs)
          → Ends (more s' buffer) s' buffer)
      → Ends (write_step more (b ∷ bs) o) s (b ∷ bs)
  unfolding write_step
  write_step-Ends more s b bs (s', err e) h serves = (
    (s', some e),
    refl,
    record {
      part = (0, write-err s s' (b ∷ bs) e h ∙ sym (append-nil (written s)));
      all = λ x. cc x;
      failed = λ e' x. (s, s', b ∷ bs, h ∙ ap (λ k. (s', err k)) (cc x));
    },
  )
  write_step-Ends more s b bs (s', ok n) h serves =
      let (e, fits) = write-written s s' (b ∷ bs) n h in
      let some_bytes = write-some s s' (b ∷ bs) n (omega arith) h in
      let (r, is, w) = serves s' (drop n (b ∷ bs)) (omega (arith, length-drop n (b ∷ bs))) in
      (r, is, Wrote-more s s' (b ∷ bs) n r e w)

  write_loop-Ends :
      (fuel : ℕ) (s : State) (buffer : List ℕ)
      → length buffer < fuel
      → Ends (write_loop file fuel s buffer) s buffer
  unfolding write_loop
  write_loop-Ends zero s buffer h = absurd (omega arith)
  write_loop-Ends (suc fuel) s [] h = (
    (s, none),
    refl,
    record {
      part = (0, sym (append-nil (written s)));
      all = λ _. sym (append-nil (written s));
      failed = λ e' x. absurd (cc x);
    },
  )
  write_loop-Ends (suc fuel) s (b ∷ bs) h =
      write_step-Ends (write_loop file fuel) s b bs (file.write s (b ∷ bs)) refl
        (λ s' buffer k. write_loop-Ends fuel s' buffer (omega arith))

-- Over a file whose writes make progress, `io::write` ends. What has then arrived behind the bytes
-- written before is a prefix of the buffer. It reports an error that a call of the file has given,
-- or what has arrived is the whole buffer.
pub write_ends :
    (file : File) (sink : Sink file) (s : file.State) (buffer : List ℕ)
    → (r : file.State × Option Errc) × (write file s buffer ≡ some r)
      × ((n : ℕ) × (sink.written r.0 ≡ sink.written s ++ take n buffer))
      × Verdict (WriteFailed file) (sink.written r.0 ≡ sink.written s ++ buffer) r.1
unfolding write
write_ends file sink s buffer =
    let (r, is, w) = write_loop-Ends file sink (length buffer + 1) s buffer (omega arith) in
    (r, is, w.part, verdict r.1 w.failed w.all)
