-- ===== src/Db/SsTable/Builder/Written.antt =====
-- What a builder writes, to a file that takes all bytes of a write at once.
use trunk.Prelude.{
  ℕ, ◌+◌, ◌^◌, ◌≡◌, refl, ap, sym, ◌∙◌, subst, List, [], ◌∷◌, ◌++◌, append-nil, append_assoc,
  Option, none, some, Bool, true, false, ltb, leb, if◌then◌else◌, Bool-cases, if_true, if_false,
  inl, inr, length, length-append, take, take_all, arith,
}
use trunk.Prelude.Result.{Errc, Result, ok, err}
use trunk.Io.File.{File, Sink}
use trunk.Db.SsTable.Builder.{
  Block, SsTableBuilder, entry, flushed, flush, flush_full, into_block, back_size, add, and_then,
  place_of, finish_loop, footer, finish,
}

-- What a loop of `finish` appends, over the blocks from the last one on.
abbrev pub items : (Block → List ℕ) → List Block → List ℕ
items item [] = []
items item (block ∷ blocks) = items item blocks ++ item block

-- The entries, one after the other.
abbrev pub entries : List (List ℕ × List ℕ) → List ℕ
entries [] = []
entries ((key, value) ∷ es) = entry key value ++ entries es

-- The blocks, the last one first, and the entries that they hold: each block holds an entry at
-- least, begins where the entries of the blocks before it end, is as long as its own entries, and
-- has the key of the last of these.
abbrev pub Parts : List Block → List (List ℕ × List ℕ) → Type 0
Parts [] es = es ≡ []
Parts (b ∷ bs) es =
    (front : List (List ℕ × List ℕ)) × (own : List (List ℕ × List ℕ)) × (key : List ℕ)
    × (value : List ℕ) × (es ≡ front ++ (own ++ (key, value) ∷ []))
    × (b.offset ≡ length (entries front))
    × (b.size ≡ length (entries (own ++ (key, value) ∷ [])))
    × (b.last ≡ key)
    × Parts bs front

length-entry : (key value : List ℕ) → length (entry key value) ≡ 8 + length key + length value
unfolding entry
length-entry key value = omega (arith, length-append key value)

pub entries-append :
    (es es' : List (List ℕ × List ℕ)) → entries (es ++ es') ≡ entries es ++ entries es'
entries-append [] es' = refl
entries-append ((key, value) ∷ es) es' =
    ap (λ t. entry key value ++ t) (entries-append es es')
    ∙ sym (append_assoc (entry key value) (entries es) (entries es'))

length-entries :
    (es es' : List (List ℕ × List ℕ))
    → length (entries (es ++ es')) ≡ length (entries es) + length (entries es')
length-entries es es' = ap length (entries-append es es') ∙ length-append (entries es) (entries es')

length-entries_one :
    (es : List (List ℕ × List ℕ)) (key value : List ℕ)
    → length (entries (es ++ (key, value) ∷ []))
      ≡ length (entries es) + (8 + length key + length value)
length-entries_one es key value = omega (
  arith,
  length-entries es ((key, value) ∷ []),
  length-append (entry key value) [],
  length-entry key value,
)

into_block-Parts :
    (block_size : ℕ) (key value : List ℕ) (es : List (List ℕ × List ℕ)) (blocks : List Block)
    → Parts blocks es
    → Parts
        (into_block block_size key (8 + length key + length value) blocks)
        (es ++ (key, value) ∷ [])
unfolding into_block
into_block-Parts block_size key value es [] p = (
  [],
  [],
  key,
  value,
  ap (λ t. t ++ (key, value) ∷ []) p,
  refl,
  omega (arith, length-entries_one [] key value),
  refl,
  refl,
)
into_block-Parts block_size key value es (b ∷ bs) (front, own, k, v, is, at, long, last, before) =
    let n = 8 + length key + length value in
    let parts : Parts (b ∷ bs) es = (front, own, k, v, is, at, long, last, before) in
    let end : length (entries es) ≡ b.offset + b.size = omega (
      arith,
      at,
      long,
      ap (λ t. length (entries t)) is,
      length-entries front (own ++ (k, v) ∷ []),
    ) in
    elim (Bool-cases (ltb block_size (b.size + n))) [
      | inl large ↦
          subst (λ bs'. Parts bs' (es ++ (key, value) ∷ []))
            (sym (if_true (ltb block_size (b.size + n)) _ _ large))
            (
              es,
              [],
              key,
              value,
              refl,
              sym end,
              omega (arith, length-entries_one [] key value),
              refl,
              parts,
            )
      | inr small ↦
          subst (λ bs'. Parts bs' (es ++ (key, value) ∷ []))
            (sym (if_false (ltb block_size (b.size + n)) _ _ small))
            (
              front,
              own ++ (k, v) ∷ [],
              key,
              value,
              ap (λ t. t ++ (key, value) ∷ []) is
                  ∙ append_assoc front (own ++ (k, v) ∷ []) ((key, value) ∷ []),
              at,
              omega (arith, long, length-entries_one (own ++ (k, v) ∷ []) key value),
              refl,
              before,
            )
    ]

module _ (file : File) (sink : Sink file)
    (whole : (s s' : file.State) (buffer : List ℕ) (n : ℕ)
      → file.write s buffer ≡ (s', ok n)
      → n ≡ length buffer) where
  -- What has arrived, and what is still in the buffer.
  abbrev pub view : SsTableBuilder file → List ℕ
  view b = sink.written b.state ++ b.buffer

  -- A step that ends without an error has appended some bytes, and kept the blocks.
  abbrev pub Appends : SsTableBuilder file → List ℕ → SsTableBuilder file × Option Errc → Type 0
  Appends b bytes (b', none) = (view b' ≡ view b ++ bytes) × (b'.blocks ≡ b.blocks)
  Appends b bytes (b', some e) = Unit

  flushed-Appends :
      (b : SsTableBuilder file) (r : file.State × Result ℕ)
      → file.write b.state b.buffer ≡ r
      → Appends b [] (flushed file b r)
  unfolding flushed
  flushed-Appends b (s, err e) is = tt
  flushed-Appends b (s, ok n) is =
      let (written, _) = sink.write-written b.state s b.buffer n is in
      let all : take n b.buffer ≡ b.buffer =
        take_all n b.buffer (omega (arith, whole b.state s b.buffer n is)) in
      (
        append-nil (sink.written s)
            ∙ written
            ∙ ap (λ t. sink.written b.state ++ t) all
            ∙ sym (append-nil (view b)),
        refl,
      )

  flush-Appends : (b : SsTableBuilder file) → Appends b [] (flush file b)
  unfolding flush
  flush-Appends b = flushed-Appends b _ refl

  flush_full-Appends : (b : SsTableBuilder file) → Appends b [] (flush_full file b)
  unfolding flush_full
  flush_full-Appends b = elim (Bool-cases (leb b.flush_size (length b.buffer))) [
    | inl e ↦
        subst (Appends b []) (sym (if_true (leb b.flush_size (length b.buffer)) _ _ e))
          (flush-Appends b)
    | inr e ↦
        subst (Appends b []) (sym (if_false (leb b.flush_size (length b.buffer)) _ _ e))
          (sym (append-nil (view b)), refl)
  ]

  -- One step after the other.
  and_then-Appends :
      (b : SsTableBuilder file) (bytes more_bytes : List ℕ)
      (more : SsTableBuilder file → SsTableBuilder file × Option Errc)
      (r : SsTableBuilder file × Option Errc)
      → Appends b bytes r
      → ((b' : SsTableBuilder file) → b'.blocks ≡ b.blocks → Appends b' more_bytes (more b'))
      → Appends b (bytes ++ more_bytes) (and_then file more r)
  unfolding and_then
  and_then-Appends b bytes more_bytes more (b', some e) first then_more = tt
  and_then-Appends b bytes more_bytes more (b', none) (first, same) then_more =
      joined (more b') (then_more b' same)
    where
      joined :
          (r : SsTableBuilder file × Option Errc)
          → Appends b' more_bytes r
          → Appends b (bytes ++ more_bytes) r
      joined (b'', some e) second = tt
      joined (b'', none) (second, same') = (
        second ∙ ap (λ t. t ++ more_bytes) first ∙ append_assoc (view b) bytes more_bytes,
        same' ∙ same,
      )

  abbrev appended : SsTableBuilder file → List ℕ → SsTableBuilder file
  appended b bytes = record b { buffer = b.buffer ++ bytes }

  -- Bytes put behind the buffer, and a step.
  behind :
      (b : SsTableBuilder file) (bytes : List ℕ) (r : SsTableBuilder file × Option Errc)
      → Appends (appended b bytes) [] r
      → Appends b bytes r
  behind b bytes (b', some e) h = tt
  behind b bytes (b', none) (h, same) =
      (h ∙ append-nil _ ∙ sym (append_assoc (sink.written b.state) b.buffer bytes), same)

  finish_loop-Appends :
      (item : Block → List ℕ) (blocks : List Block) (b : SsTableBuilder file)
      → Appends b (items item blocks) (finish_loop file item blocks b)
  unfolding finish_loop
  finish_loop-Appends item [] b = (sym (append-nil (view b)), refl)
  finish_loop-Appends item (block ∷ blocks) b =
      and_then-Appends b (items item blocks) (item block) _ (finish_loop file item blocks b)
        (finish_loop-Appends item blocks b)
        (λ b' same.
          behind b' (item block) (flush_full file (appended b' (item block)))
            (flush_full-Appends (appended b' (item block))))

  pub finish-Appends :
      (b : SsTableBuilder file)
      → Appends b
          (items place_of b.blocks ++ (items (λ block. block.last) b.blocks ++ footer b.blocks))
          (finish file b)
  unfolding finish
  finish-Appends b =
      and_then-Appends b (items place_of b.blocks) _ _ (finish_loop file place_of b.blocks b)
        (finish_loop-Appends place_of b.blocks b)
        (λ b' same.
          and_then-Appends b' (items (λ block. block.last) b.blocks) (footer b.blocks) _
            (finish_loop file (λ block. block.last) b.blocks b')
            (finish_loop-Appends (λ block. block.last) b.blocks b')
            (λ b'' same'.
              subst (λ bs. Appends b'' (footer bs) (flush file (appended b'' (footer b''.blocks))))
                (same' ∙ same)
                (behind b'' (footer b''.blocks) (flush file (appended b'' (footer b''.blocks)))
                  (flush-Appends (appended b'' (footer b''.blocks))))))

  -- The builder after entries: what it has been given, and blocks that hold just that.
  pub record IsBuilt (start : List ℕ) (given : List (List ℕ × List ℕ)) (b : SsTableBuilder file)
      : Type 0 where
    pub content : view b ≡ start ++ entries given
    pub parts : Parts b.blocks given

  -- A step keeps the blocks that it is called with.
  pub kept :
      (b b' : SsTableBuilder file) (bytes : List ℕ) (r : SsTableBuilder file × Option Errc)
      → Appends b bytes r
      → r ≡ (b', none)
      → (view b' ≡ view b ++ bytes) × (b'.blocks ≡ b.blocks)
  kept b b' bytes r h e = subst (Appends b bytes) e h

  added_whole :
      (large : Bool) (r r' : SsTableBuilder file × Option Errc)
      → (if large then none else some r) ≡ some r'
      → (large ≡ false) × (r ≡ r')
  added_whole true r r' e = absurd (cc e)
  added_whole false r r' e = (refl, cc e)

  pub add-IsBuilt :
      (start : List ℕ) (given : List (List ℕ × List ℕ)) (key value : List ℕ)
      (b b' : SsTableBuilder file)
      → IsBuilt start given b
      → add file key value b ≡ some (b', none)
      → IsBuilt start (given ++ (key, value) ∷ []) b'
  unfolding add
  add-IsBuilt start given key value b b' built is =
      let n = 8 + length key + length value in
      let x : SsTableBuilder file = record b {
        buffer = b.buffer ++ entry key value;
        blocks = into_block b.block_size key n b.blocks;
      } in
      let (r, same) =
        added_whole (leb (2 ^ 31) (back_size b.blocks + n)) (flush_full file x) (b', none) is in
      let (content, blocks) = kept x b' [] (flush_full file x) (flush_full-Appends x) same in
      let more : entries given ++ entry key value ≡ entries (given ++ (key, value) ∷ []) =
        ap (λ t. entries given ++ t) (sym (append-nil (entry key value)))
        ∙ sym (entries-append given ((key, value) ∷ [])) in
      record {
        content =
            content
            ∙ append-nil (view x)
            ∙ sym (append_assoc (sink.written b.state) b.buffer (entry key value))
            ∙ ap (λ t. t ++ entry key value) built.content
            ∙ append_assoc start (entries given) (entry key value)
            ∙ ap (λ t. start ++ t) more;
        parts =
            subst (λ bs. Parts bs (given ++ (key, value) ∷ [])) (sym blocks)
              (into_block-Parts b.block_size key value given b.blocks built.parts);
      }
