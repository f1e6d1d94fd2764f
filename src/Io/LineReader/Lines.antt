-- ===== src/Io/LineReader/Lines.antt =====
-- `LineReader::read` against the text that is still to come.
use trunk.Prelude.{
  ℕ, zero, suc, ◌+◌, ◌-◌, ◌<◌, ◌≡◌, ◌≢◌, ◌⊎◌, refl, ap, sym, ◌∙◌, List, [], ◌∷◌, ◌++◌, none, some,
  Bool, true, false, inl, inr, drop, length, All-append, replicate, length-append, drop-append_ge,
  take-append_ge, append-nil, append_assoc, drop-drop, arith,
}
use trunk.Prelude.Result.{Errc, Result, ok, err}
use trunk.Io.File.{File, Source, ReadFailed}
use trunk.Io.MemoryFile.{resize}
use trunk.Io.LineReader.{LineReader, Outcome, scan, refill, scanned, read_loop, read, Answer}
use trunk.Io.LineReader.Scan.{Free, Scanned, scan-Scanned}

-- An error that a call of the file has given, or an answer about the end of the file.
abbrev Reported : File → Outcome → Type 0
Reported file o =
    ((e : Errc) × (o.error ≡ some e) × (o.end_of_file ≡ none) × ReadFailed file e)
    ⊎ ((b : Bool) × (o.error ≡ none) × (o.end_of_file ≡ some b))

module _ (file : File) (source : Source file) where
  open file use {State}
  open source use {left, read-left, read-end}

  -- The text to come: what is left of the buffer, then what is left of the file.
  abbrev pub pending : LineReader → State → List ℕ
  pending r s = drop r.offset r.buffer ++ left s

  -- A line up to the first delimiter, or all of the text where there is no delimiter in it; `line`
  -- is what earlier rounds have taken, with no delimiter in it.
  record Read (r : LineReader) (s : State) (line : List ℕ) (a : Outcome × LineReader × State)
      : Type 0 where
    one :
        a.0.end_of_file ≡ some false
        → (front : List ℕ) × Free r.delimiter front
          × (a.0.line ≡ line ++ (front ++ (r.delimiter ∷ [])))
          × (pending r s ≡ front ++ (r.delimiter ∷ pending a.1 a.2))
    last :
        a.0.end_of_file ≡ some true
        → Free r.delimiter (pending r s) × (a.0.line ≡ line ++ pending r s) × (left a.2 ≡ [])
    kept : (a.1.delimiter ≡ r.delimiter) × (a.1.capacity ≡ r.capacity)
    reported : Reported file a.0

  abbrev Reads : Answer State → LineReader → State → List ℕ → Type 0
  Reads o r s line = (a : Outcome × LineReader × State) × (o ≡ some a) × Read r s line a

  -- The buffer is used up with no delimiter in it, and the file has given the next bytes.
  Read-more :
      (r : LineReader) (s s' : State) (line buffer' : List ℕ) (offset' : ℕ)
      (a : Outcome × LineReader × State)
      → Free r.delimiter (drop r.offset r.buffer)
      → left s ≡ drop offset' buffer' ++ left s'
      → Read (record r { buffer = buffer'; offset = offset' }) s' (line ++ drop r.offset r.buffer) a
      → Read r s line a
  Read-more r s s' line buffer' offset' a free el h = record {
    one = λ x.
        let (front, free', eline, ep) = h.one x in
        (
          taken ++ front,
          All-append (λ b. b ≢ r.delimiter) taken front free free',
          eline ∙ simp append_assoc,
          ap (λ t. taken ++ t) (el ∙ ep)
              ∙ sym (append_assoc taken front (r.delimiter ∷ pending a.1 a.2)),
        );
    last = λ x.
        let (free', eline, el') = h.last x in
        (
          All-append (λ b. b ≢ r.delimiter) taken (left s) free (rw el free'),
          eline ∙ append_assoc line taken _ ∙ ap (λ t. line ++ (taken ++ t)) (sym el),
          el',
        );
    kept = h.kept;
    reported = h.reported;
  }
    where
      taken : List ℕ
      taken = drop r.offset r.buffer

  -- The call returned no byte, or an error.
  Read-end :
      (r : LineReader) (s s' : State) (line buffer' : List ℕ)
      → Free r.delimiter (drop r.offset r.buffer)
      → left s ≡ []
      → left s' ≡ []
      → Read r s line (
        record { line = line ++ drop r.offset r.buffer; end_of_file = some true; error = none },
        record r { buffer = buffer'; offset = 0 },
        s',
      )
  Read-end r s s' line buffer' free e e' = record {
    one = λ x. cc x;
    last = λ _. (
      All-append (λ b. b ≢ r.delimiter) (drop r.offset r.buffer) (left s) free (rw e tt),
      ap (λ t. line ++ t)
          (sym (ap (λ t. drop r.offset r.buffer ++ t) e ∙ append-nil (drop r.offset r.buffer))),
      e',
    );
    kept = (refl, refl);
    reported = inr (_, refl, refl);
  }

  Read-err :
      (r : LineReader) (s s' : State) (line line' buffer' : List ℕ) (e : Errc)
      → ReadFailed file e
      → Read r s line (
        record { line = line'; end_of_file = none; error = some e },
        record r { buffer = buffer'; offset = 0 },
        s',
      )
  Read-err r s s' line line' buffer' e f = record {
    one = λ x. cc x;
    last = λ x. cc x;
    kept = (refl, refl);
    reported = inl (e, refl, refl, f);
  }

  -- The bytes read replace those in the buffer.
  resize_read : (got old : List ℕ) → resize (length got) (got ++ drop (length got) old) ≡ got
  resize_read got old =
      ap (λ t. t ++ replicate (length got - length (got ++ drop (length got) old)) 0)
        (take-append_ge (length got) 0 got _ (omega arith) ∙ append-nil got)
      ∙ ap (λ n. got ++ replicate n 0) none_left
      ∙ append-nil got
    where
      none_left : length got - length (got ++ drop (length got) old) ≡ 0
      none_left = omega (arith, length-append got (drop (length got) old))

  refill-Reads :
      (more : LineReader → State → List ℕ → Answer State) (r : LineReader) (s : State)
      (line old : List ℕ) (o : State × Result (List ℕ))
      → 0 < r.capacity
      → file.read s r.capacity ≡ o
      → Free r.delimiter (drop r.offset r.buffer)
      → ((s' : State) (buffer' : List ℕ)
          → length (left s') < length (left s)
          → let r' = record r { buffer = buffer'; offset = 0 } in
            Reads
              (more r' s' (line ++ drop r.offset r.buffer))
              r'
              s'
              (line ++ drop r.offset r.buffer))
      → Reads
          (refill more (record r { buffer = old; offset = 0 }) (line ++ drop r.offset r.buffer) o)
          r
          s
          line
  unfolding refill
  refill-Reads more r s line old (s', err e) pos h free serves =
      (_, refl, Read-err r s s' line _ old e (s, s', r.capacity, h))
  refill-Reads more r s line old (s', ok []) pos h free serves =
      let done : left s ≡ [] = read-end s s' r.capacity pos h in
      (_, refl, Read-end r s s' line old free done (sym (read-left s s' r.capacity [] h).0 ∙ done))
  refill-Reads more r s line old (s', ok (b ∷ bs)) pos h free serves =
      let (e, fits) = read-left s s' r.capacity (b ∷ bs) h in
      let (a, is, q) =
        serves s' (b ∷ bs)
          (omega (arith, ap (λ xs. length xs) e, length-append (b ∷ bs) (left s'))) in
      (
        a,
        ap
              (λ buffer.
                more (record r { buffer = buffer; offset = 0 }) s' (line ++ drop r.offset r.buffer))
              (resize_read (b ∷ bs) old)
            ∙ is,
        Read-more r s s' line (b ∷ bs) 0 a free e q,
      )

  -- A delimiter in the buffer.
  Read-found :
      (r : LineReader) (s : State) (line line' front behind : List ℕ) (offset : ℕ)
      → Free r.delimiter front
      → drop r.offset r.buffer ≡ front ++ (r.delimiter ∷ behind)
      → line' ≡ line ++ (front ++ (r.delimiter ∷ []))
      → offset ≡ r.offset + (length front + 1)
      → Read r s line (
        record { line = line'; end_of_file = some false; error = none },
        record r { offset = offset },
        s,
      )
  Read-found r s line line' front behind offset free e el eo = record {
    one = λ _. (front, free, el, text);
    last = λ x. absurd (some-ne x);
    kept = (refl, refl);
    reported = inr (_, refl, refl);
  }
    where
      some-ne : some false ≢ some true
      some-ne x = cc x

      rest : drop offset r.buffer ≡ behind
      rest =
          ap (λ k. drop k r.buffer) eo
          ∙ sym (drop-drop (length front + 1) r.offset r.buffer)
          ∙ ap (drop (length front + 1)) e
          ∙ drop-append_ge (length front + 1) 1 front (r.delimiter ∷ behind) (omega arith)

      text :
          drop r.offset r.buffer ++ left s
          ≡ front ++ (r.delimiter ∷ (drop offset r.buffer ++ left s))
      text =
          ap (λ t. t ++ left s) e
          ∙ append_assoc front (r.delimiter ∷ behind) (left s)
          ∙ ap (λ t. front ++ (r.delimiter ∷ (t ++ left s))) (sym rest)

  scanned-Reads :
      (more : LineReader → State → List ℕ → Answer State) (r : LineReader) (s : State)
      (line : List ℕ) (q : List ℕ × ℕ × Bool)
      → 0 < r.capacity
      → Scanned r.delimiter (drop r.offset r.buffer) r.offset line q
      → ((s' : State) (buffer' : List ℕ)
          → length (left s') < length (left s)
          → let r' = record r { buffer = buffer'; offset = 0 } in
            Reads
              (more r' s' (line ++ drop r.offset r.buffer))
              r'
              s'
              (line ++ drop r.offset r.buffer))
      → Reads (scanned more file.read r s q) r s line
  unfolding scanned
  scanned-Reads more r s line (line', offset, true) pos h serves =
      let (front, behind, free, e, el, eo) = h.found refl in
      (_, refl, Read-found r s line line' front behind offset free e el eo)
  scanned-Reads more r s line (line', offset, false) pos h serves =
      let (free, el) = h.missed refl in
      let old : List ℕ = resize r.capacity r.buffer in
      let (a, is, q) =
        refill-Reads more r s line old (file.read s r.capacity) pos refl free serves in
      (
        a,
        ap (λ t. refill more (record r { buffer = old; offset = 0 }) t (file.read s r.capacity)) el
            ∙ is,
        q,
      )

  read_loop-Reads :
      (fuel : ℕ) (r : LineReader) (s : State) (line : List ℕ)
      → 0 < r.capacity
      → length (left s) < fuel
      → Reads (read_loop file fuel r s line) r s line
  unfolding read_loop
  read_loop-Reads zero r s line pos h = absurd (omega arith)
  read_loop-Reads (suc fuel) r s line pos h =
      scanned-Reads (read_loop file fuel) r s line
        (scan r.delimiter (drop r.offset r.buffer) r.offset line) pos
        (scan-Scanned r.delimiter (drop r.offset r.buffer) r.offset line)
        (λ s' buffer' k.
          read_loop-Reads fuel (record r { buffer = buffer'; offset = 0 }) s'
            (line ++ drop r.offset r.buffer) pos (omega arith))

-- Over a file that is read to its end, with a buffer of some capacity, `LineReader::read` ends. It
-- reports an error that a call of the file has given and says nothing about the end; or it answers
-- that the end is not reached, the line is the text to come up to the first delimiter and with it,
-- and the text after the line is what is then to come; or it answers that the end is reached, there
-- is no delimiter in the text to come, the line is all of it, and the file has no bytes left.
pub read_lines :
    (file : File) (source : Source file) (fuel : ℕ) (r : LineReader) (s : file.State)
    → 0 < r.capacity
    → length (source.left s) < fuel
    → (o : Outcome) × (r' : LineReader) × (s' : file.State) × (read file fuel r s
        ≡ some (o, r', s'))
      × (((e : Errc) × (o.error ≡ some e) × (o.end_of_file ≡ none) × ReadFailed file e)
          ⊎ (((o.error ≡ none)
                × (o.end_of_file ≡ some false)
                × ((front : List ℕ) × Free r.delimiter front
                    × (o.line ≡ front ++ (r.delimiter ∷ []))
                    × (pending file source r s ≡ o.line ++ pending file source r' s')))
              ⊎ ((o.error ≡ none)
                  × (o.end_of_file ≡ some true)
                  × Free r.delimiter (pending file source r s)
                  × (o.line ≡ pending file source r s)
                  × (source.left s' ≡ []))))
unfolding read
read_lines file source fuel r s pos h =
    let ((o, r', s'), is, q) = read_loop-Reads file source fuel r s [] pos h in
    (
      o,
      r',
      s',
      is,
      elim q.reported [
        | inl failed ↦ inl failed
        | inr (true, ee, eb) ↦ let (free, el, le) = q.last eb in inr (inr (ee, eb, free, el, le))
        | inr (false, ee, eb) ↦
            let (front, free, el, ep) = q.one eb in
            inr (
              inl (
                ee,
                eb,
                (
                  front,
                  free,
                  el,
                  ep
                      ∙ sym (append_assoc front (r.delimiter ∷ []) _)
                      ∙ ap (λ t. t ++ pending file source r' s') (sym el),
                ),
              ))
      ],
    )
