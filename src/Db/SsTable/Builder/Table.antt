-- ===== src/Db/SsTable/Builder/Table.antt =====
-- The file that a builder leaves behind.
use trunk.Prelude.{
  ℕ, ◌≡◌, refl, ap, sym, ◌∙◌, subst, List, [], ◌∷◌, ◌++◌, append-nil, append_assoc, Option, none,
  some, length,
}
use trunk.Prelude.Result.{Errc, Result, ok, err}
use trunk.Io.File.{File, Sink}
use trunk.Db.SsTable.Builder.{
  SsTableBuilder, flushed, flush, add, and_then, place_of, finish_loop, footer, finish,
}
use trunk.Db.SsTable.Builder.Written.{
  items, entries, Parts, IsBuilt, add-IsBuilt, finish-Appends, kept,
}

-- What follows a call of `add` that gave no error; `none` is where there is none.
unfoldable pub add_then : {B : Type 0} → (B → Option B) → Option (B × Option Errc) → Option B
add_then more none = none
add_then more (some (b, some e)) = none
add_then more (some (b, none)) = more b

-- `add` of entries, one after the other, each without an error.
unfoldable pub add_all :
    (file : File) → List (List ℕ × List ℕ) → SsTableBuilder file → Option (SsTableBuilder file)
add_all file [] b = some b
add_all file ((key, value) ∷ es) b = add_then (add_all file es) (add file key value b)

add_then_ended :
    {B : Type 0} (more : B → Option B) (r : Option (B × Option Errc)) (b : B)
    → add_then more r ≡ some b
    → (b' : B) × (r ≡ some (b', none)) × (more b' ≡ some b)
unfolding add_then
add_then_ended more none b is = absurd (cc is)
add_then_ended more (some (b', some e)) b is = absurd (cc is)
add_then_ended more (some (b', none)) b is = (b', refl, is)

-- A write takes all its bytes, unless it gives an error.
abbrev pub IsWhole : File → Type 0
IsWhole file =
    (s s' : file.State) (buffer : List ℕ) (n : ℕ)
    → file.write s buffer ≡ (s', ok n)
    → n ≡ length buffer

module _ (file : File) where
  and_then_ended :
      (more : SsTableBuilder file → SsTableBuilder file × Option Errc)
      (r : SsTableBuilder file × Option Errc) (b : SsTableBuilder file)
      → and_then file more r ≡ (b, none)
      → (b' : SsTableBuilder file) × (more b' ≡ (b, none))
  unfolding and_then
  and_then_ended more (b', some e) b is = absurd (cc (ap (λ p. p.1) is))
  and_then_ended more (b', none) b is = (b', is)

  flushed_empty :
      (b b' : SsTableBuilder file) (r : file.State × Result ℕ)
      → flushed file b r ≡ (b', none)
      → b'.buffer ≡ []
  unfolding flushed
  flushed_empty b b' (s, err e) is = absurd (cc (ap (λ p. p.1) is))
  flushed_empty b b' (s, ok n) is = ap (λ p. p.0.buffer) (sym is)

  finish_empty : (b b' : SsTableBuilder file) → finish file b ≡ (b', none) → b'.buffer ≡ []
  unfolding finish flush
  finish_empty b b' is =
      let (b1, is1) = and_then_ended _ (finish_loop file place_of b.blocks b) b' is in
      let (b2, is2) =
        and_then_ended _ (finish_loop file (λ block. block.last) b.blocks b1) b' is1 in
      flushed_empty _ b' _ is2

  module _ (sink : Sink file) (whole : IsWhole file) where
    add_all-IsBuilt :
        (es : List (List ℕ × List ℕ)) (start : List ℕ) (given : List (List ℕ × List ℕ))
        (b b' : SsTableBuilder file)
        → IsBuilt file sink whole start given b
        → add_all file es b ≡ some b'
        → IsBuilt file sink whole start (given ++ es) b'
    unfolding add_all
    add_all-IsBuilt [] start given b b' built is =
        let same : b ≡ b' = cc is in
        subst (IsBuilt file sink whole start (given ++ [])) same
          (subst (λ t. IsBuilt file sink whole start t b) (sym (append-nil given)) built)
    add_all-IsBuilt ((key, value) ∷ es) start given b b' built is =
        let (b1, once, later) = add_then_ended (add_all file es) (add file key value b) b' is in
        let next = add-IsBuilt file sink whole start given key value b b1 built once in
        subst (λ t. IsBuilt file sink whole start t b') (append_assoc given ((key, value) ∷ []) es)
          (add_all-IsBuilt es start (given ++ (key, value) ∷ []) b1 b' next later)

-- A builder that has nothing in its buffer and no blocks, over a file whose writes take all their
-- bytes or give an error. If entries are added and the table is finished, each time without an error,
-- then behind what the file held there stand the entries, the places of the blocks, their last keys,
-- and the two numbers at the end. The blocks hold just the entries, side by side: each block begins
-- where the entries before it end, is as long as its own, one at least, and has the last one's key.
pub table_written :
    (file : File) (sink : Sink file) (es : List (List ℕ × List ℕ)) (b b' b'' : SsTableBuilder file)
    → IsWhole file
    → b.buffer ≡ []
    → b.blocks ≡ []
    → add_all file es b ≡ some b'
    → finish file b' ≡ (b'', none)
    → (sink.written b''.state
        ≡ sink.written b.state
          ++ (entries es
              ++ (items place_of b'.blocks
                  ++ (items (λ block. block.last) b'.blocks ++ footer b'.blocks))))
      × Parts b'.blocks es
table_written file sink es b b' b'' whole nothing no_blocks added finished =
    let start = sink.written b.state in
    let first : IsBuilt file sink whole start [] b = record {
      content = ap (λ t. start ++ t) nothing;
      parts = subst (λ bs. Parts bs []) (sym no_blocks) refl;
    } in
    let built = add_all-IsBuilt file sink whole es start [] b b' first added in
    let rest =
      items place_of b'.blocks ++ (items (λ block. block.last) b'.blocks ++ footer b'.blocks) in
    let (content, _) =
      kept file sink whole b' b'' rest (finish file b') (finish-Appends file sink whole b')
        finished in
    (
      sym (append-nil (sink.written b''.state))
          ∙ ap (λ t. sink.written b''.state ++ t) (sym (finish_empty file b' b'' finished))
          ∙ content
          ∙ ap (λ t. t ++ rest) built.content
          ∙ append_assoc start (entries es) rest,
      built.parts,
    )
