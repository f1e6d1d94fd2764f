-- ===== src/Io/FileUtils/Reads.antt =====
-- `io::read` and `io::read_to_end` over a file that is read to its end.
use trunk.Prelude.{
  ℕ, zero, suc, ◌+◌, ◌-◌, ◌≤◌, ◌<◌, ◌≡◌, refl, ap, sym, ◌∙◌, List, [], ◌∷◌, ◌++◌, Option, none,
  some, take, drop, length, length-append, take-append_ge, drop-append_ge, take-nil, drop-nil,
  append-nil, append_assoc, arith,
}
use trunk.Prelude.Result.{Errc, Result, ok, err}
use trunk.Io.File.{File, Source, ReadFailed, Verdict, verdict}
use trunk.Io.FileUtils.{Ended, read_step, read_loop, read}
use trunk.Io.FileUtils.{read_to_end_step, read_to_end_loop, read_to_end}

module _ (file : File) (source : Source file) where
  open file use {State}
  open source use {left, read-left, read-end}

  -- What a loop leaves that was to read `n` bytes, if no call failed.
  record Took (s : State) (n : ℕ) (got : List ℕ) (r : State × List ℕ × Option Errc) : Type 0 where
    bytes : r.2 ≡ none → r.1 ≡ got ++ take n (left s)
    rest : r.2 ≡ none → left r.0 ≡ drop n (left s)
    failed : (e : Errc) → r.2 ≡ some e → ReadFailed file e

  abbrev Ends : Ended State → State → ℕ → List ℕ → Type 0
  Ends o s n got = (r : State × List ℕ × Option Errc) × (o ≡ some r) × Took s n got r

  -- A round that takes bytes, and the rounds after it.
  Took-more :
      (s s' : State) (n : ℕ) (got new : List ℕ) (r : State × List ℕ × Option Errc)
      → left s ≡ new ++ left s'
      → length new ≤ n
      → Took s' (n - length new) (got ++ new) r
      → Took s n got r
  Took-more s s' n got new r e h t = record {
    bytes = λ x.
        t.bytes x
        ∙ append_assoc got new (take (n - length new) (left s'))
        ∙ ap (λ k. got ++ k)
            (sym (take-append_ge n (n - length new) new (left s') (omega arith))
              ∙ ap (take n) (sym e));
    rest = λ x.
        t.rest x
        ∙ sym (drop-append_ge n (n - length new) new (left s') (omega arith))
        ∙ ap (drop n) (sym e);
    failed = t.failed;
  }

  read_step-Ends :
      (more : State → ℕ → List ℕ → Ended State) (s : State) (n : ℕ) (got : List ℕ)
      (o : State × Result (List ℕ))
      → 0 < n
      → file.read s n ≡ o
      → ((s' : State) (m : ℕ) (got' : List ℕ) → m < n → Ends (more s' m got') s' m got')
      → Ends (read_step more n got o) s n got
  unfolding read_step
  read_step-Ends more s n got (s', err e) pos h serves = (
    (s', got, some e),
    refl,
    record {
      bytes = λ x. cc x;
      rest = λ x. cc x;
      failed = λ e' x. (s, s', n, h ∙ ap (λ k. (s', err k)) (cc x));
    },
  )
  read_step-Ends more s n got (s', ok []) pos h serves =
      let done : left s ≡ [] = read-end s s' n pos h in
      (
        (s', got, none),
        refl,
        record {
          bytes = λ _.
              sym
                (ap (λ t. got ++ take n t) done ∙ ap (λ t. got ++ t) (take-nil n) ∙ append-nil got);
          rest = λ _. sym (read-left s s' n [] h).0 ∙ done ∙ sym (ap (drop n) done ∙ drop-nil n);
          failed = λ e' x. absurd (cc x);
        },
      )
  read_step-Ends more s n got (s', ok (b ∷ bs)) pos h serves =
      let (e, fits) = read-left s s' n (b ∷ bs) h in
      let (r, is, t) = serves s' (n - length (b ∷ bs)) (got ++ (b ∷ bs)) (omega arith) in
      (r, is, Took-more s s' n got (b ∷ bs) r e fits t)

  read_loop-Ends :
      (fuel : ℕ) (s : State) (n : ℕ) (got : List ℕ)
      → n < fuel
      → Ends (read_loop file fuel s n got) s n got
  unfolding read_loop
  read_loop-Ends zero s n got h = absurd (omega arith)
  read_loop-Ends (suc fuel) s zero got h = (
    (s, got, none),
    refl,
    record { bytes = λ _. sym (append-nil got); rest = λ _. refl; failed = λ e' x. absurd (cc x) },
  )
  read_loop-Ends (suc fuel) s (suc n) got h =
      read_step-Ends (read_loop file fuel) s (suc n) got (file.read s (suc n)) (omega arith) refl
        (λ s' m got' k. read_loop-Ends fuel s' m got' (omega arith))

-- Over a file that is read to its end `io::read` ends. It reports an error that a call of the file
-- has given, or it returns the next `n` bytes, or all that are left if there are fewer, and leaves
-- the file behind them.
pub read_ends :
    (file : File) (source : Source file) (s : file.State) (n : ℕ)
    → (r : file.State × List ℕ × Option Errc) × (read file s n ≡ some r)
      × Verdict
          (ReadFailed file)
          ((r.1 ≡ take n (source.left s)) × (source.left r.0 ≡ drop n (source.left s)))
          r.2
unfolding read
read_ends file source s n =
    let (r, is, t) = read_loop-Ends file source (n + 1) s n [] (omega arith) in
    (r, is, verdict r.2 t.failed (λ x. (t.bytes x, t.rest x)))

module _ (file : File) (source : Source file) (buffer_size : ℕ) (pos : 0 < buffer_size) where
  open file use {State}
  open source use {left, read-left, read-end}

  -- What the loop leaves that reads everything, if no call failed.
  record TookAll (s : State) (content : List ℕ) (r : State × List ℕ × Option Errc) : Type 0 where
    all : r.2 ≡ none → r.1 ≡ content ++ left s
    ended : r.2 ≡ none → left r.0 ≡ []
    failed : (e : Errc) → r.2 ≡ some e → ReadFailed file e

  abbrev EndsAll : Ended State → State → List ℕ → Type 0
  EndsAll o s content = (r : State × List ℕ × Option Errc) × (o ≡ some r) × TookAll s content r

  step-EndsAll :
      (more : State → List ℕ → Ended State) (s : State) (content : List ℕ)
      (o : State × Result (List ℕ))
      → file.read s buffer_size ≡ o
      → ((s' : State) (content' : List ℕ)
          → length (left s') < length (left s)
          → EndsAll (more s' content') s' content')
      → EndsAll (read_to_end_step more content o) s content
  unfolding read_to_end_step
  step-EndsAll more s content (s', err e) h serves = (
    (s', content, some e),
    refl,
    record {
      all = λ x. cc x;
      ended = λ x. cc x;
      failed = λ e' x. (s, s', buffer_size, h ∙ ap (λ k. (s', err k)) (cc x));
    },
  )
  step-EndsAll more s content (s', ok []) h serves =
      let done : left s ≡ [] = read-end s s' buffer_size pos h in
      (
        (s', content, none),
        refl,
        record {
          all = λ _. sym (ap (λ t. content ++ t) done ∙ append-nil content);
          ended = λ _. sym (read-left s s' buffer_size [] h).0 ∙ done;
          failed = λ e' x. absurd (cc x);
        },
      )
  step-EndsAll more s content (s', ok (b ∷ bs)) h serves =
      let (e, fits) = read-left s s' buffer_size (b ∷ bs) h in
      let (r, is, t) =
        serves s' (content ++ (b ∷ bs))
          (omega (arith, ap (λ xs. length xs) e, length-append (b ∷ bs) (left s'))) in
      (
        r,
        is,
        record {
          all = λ x.
              t.all x ∙ append_assoc content (b ∷ bs) (left s') ∙ ap (λ t. content ++ t) (sym e);
          ended = t.ended;
          failed = t.failed;
        },
      )

  loop-EndsAll :
      (fuel : ℕ) (s : State) (content : List ℕ)
      → length (left s) < fuel
      → EndsAll (read_to_end_loop file buffer_size fuel s content) s content
  unfolding read_to_end_loop
  loop-EndsAll zero s content h = absurd (omega arith)
  loop-EndsAll (suc fuel) s content h =
      step-EndsAll (read_to_end_loop file buffer_size fuel) s content (file.read s buffer_size) refl
        (λ s' content' k. loop-EndsAll fuel s' content' (omega arith))

-- Over a file that is read to its end `io::read_to_end` ends, for every buffer size but zero, in as
-- many rounds as there are bytes left, and one more. It reports an error that a call of the file has
-- given, or it returns all of them and nothing is left.
read_to_end_ends :
    (file : File) (source : Source file) (buffer_size fuel : ℕ) (s : file.State)
    → 0 < buffer_size
    → length (source.left s) < fuel
    → (r : file.State × List ℕ × Option Errc) × (read_to_end file buffer_size fuel s ≡ some r)
      × Verdict (ReadFailed file) ((r.1 ≡ source.left s) × (source.left r.0 ≡ [])) r.2
unfolding read_to_end
read_to_end_ends file source buffer_size fuel s pos h =
    let (r, is, t) = loop-EndsAll file source buffer_size pos fuel s [] h in
    (r, is, verdict r.2 t.failed (λ x. (t.all x, t.ended x)))
