-- ===== src/Io/MemoryFile/Laws.antt =====
-- The methods of `MemoryFile` together.
use trunk.Prelude.{
  ℕ, ◌+◌, ◌-◌, ◌≤◌, min, ◌≡◌, ◌⊎◌, inl, inr, ap, ap₂, sym, ◌∙◌, List, [], ◌++◌, take, drop, length,
  length-append, length-take, length-drop, take-append_ge, drop-append_ge, take-append_le, take_all,
  drop_all, take-take, drop-take, drop-drop, take-nil, append-nil, append_assoc, arith,
}
use trunk.Prelude.Int.{pos}
use trunk.Prelude.Result.{ok, ◌>>=◌}
use trunk.Io.MemoryFile.{MemoryFile, slice, overlay, read, write, pread, pwrite, seek}
use trunk.Io.MemoryFile.Overlay.{overlay_lem, length-overlay, take-overlay, drop-overlay, front}
use trunk.Io.MemoryFile.Overlay.{front_within, length-front}
use native.Mathlib.Decide.{dec_le}

-- The bytes from a position on, at most `n` of them.
abbrev pub window : ℕ → ℕ → List ℕ → List ℕ
window position n content = take n (drop position content)

slice-window :
    (position n : ℕ) (content : List ℕ)
    → slice position (min (position + n) (length content)) content ≡ window position n content
slice-window position n content = elim (dec_le (position + n) (length content)) [
  | yes fits ↦ ap (λ k. take k (drop position content)) (omega arith)
  | no over ↦
      take_all _ (drop position content) (omega (arith, length-drop position content))
      ∙ sym (take_all n (drop position content) (omega (arith, length-drop position content)))
]

window_past :
    (position n : ℕ) (content : List ℕ) → length content ≤ position → window position n content ≡ []
window_past position n content h = ap (take n) (drop_all position content h) ∙ take-nil n

-- `pread` at a position that is not negative never fails: it returns the bytes of the content from
-- there on, as many as were asked for or are left.
pub pread-window :
    (f : MemoryFile) (position n : ℕ)
    → pread f (pos position) n ≡ ok (take n (drop position f.content))
unfolding pread
pread-window f position n =
    ground (arith, slice-window position n f.content, window_past position n f.content)

-- `read` never fails: it returns what `pread` would at the file's position, and moves the position
-- behind it.
pub read-window :
    (f : MemoryFile) (n : ℕ)
    → let got = take n (drop f.position f.content) in
      read f n ≡ ok (got, record f { position = f.position + length got })
unfolding read
read-window f n = ground (
  arith,
  slice-window f.position n f.content,
  window_past f.position n f.content,
  length-take n (drop f.position f.content),
  length-drop f.position f.content,
)

-- `pread` reads back what `pwrite` wrote, at every position, past the end of the file too.
pub pread-pwrite :
    (f : MemoryFile) (position : ℕ) (buffer : List ℕ)
    → (pwrite f (pos position) buffer >>= λ (n, f'). pread f' (pos position) n) ≡ ok buffer
unfolding pwrite
pread-pwrite f position buffer =
    pread-window _ position (length buffer)
    ∙ ap ok (
        ap (take (length buffer)) (drop-overlay position buffer f.content)
        ∙ take-append_ge (length buffer) 0 buffer _ (omega arith)
        ∙ append-nil buffer)

-- A window is seen through the bytes up to its end.
window_of_take :
    (q n : ℕ) (xs ys : List ℕ) → take (q + n) xs ≡ take (q + n) ys → window q n xs ≡ window q n ys
window_of_take q n xs ys h =
    let e : n ≡ q + n - q = omega arith in
    ap (λ k. take k (drop q xs)) e
    ∙ sym (drop-take q (q + n) xs)
    ∙ ap (drop q) h
    ∙ drop-take q (q + n) ys
    ∙ ap (λ k. take k (drop q ys)) (sym e)

take-overlay_before :
    (k position : ℕ) (buffer content : List ℕ)
    → k ≤ position
    → k ≤ length content
    → take k (overlay position buffer content) ≡ take k content
take-overlay_before k position buffer content h inside =
    sym (take-take k position (overlay position buffer content) h)
    ∙ ap (take k) (take-overlay position buffer content)
    ∙ take-append_le k (take position content) _ (omega (arith, length-take position content))
    ∙ take-take k position content h

-- From a place behind the buffer on, nothing has changed.
drop-overlay_behind :
    (position q : ℕ) (buffer content : List ℕ)
    → position + length buffer ≤ q
    → drop q (overlay position buffer content) ≡ drop q content
drop-overlay_behind position q buffer content h =
    ap (λ k. drop k (overlay position buffer content)) e
    ∙ sym (drop-drop (length buffer + j) position (overlay position buffer content))
    ∙ ap (drop (length buffer + j)) (drop-overlay position buffer content)
    ∙ drop-append_ge (length buffer + j) j buffer _ (omega arith)
    ∙ drop-drop j (position + length buffer) content
    ∙ ap (λ k. drop k content) (omega arith)
  where
    j : ℕ
    j = q - (position + length buffer)

    e : q ≡ position + (length buffer + j)
    e = omega arith

window-overlay :
    (f : MemoryFile) (position q n : ℕ) (buffer : List ℕ)
    → ((q + n ≤ position) × (q + n ≤ length f.content)) ⊎ (position + length buffer ≤ q)
    → window q n (overlay position buffer f.content) ≡ window q n f.content
window-overlay f position q n buffer (inl (before, inside)) =
    window_of_take q n _ _ (take-overlay_before (q + n) position buffer f.content before inside)
window-overlay f position q n buffer (inr behind) =
    ap (take n) (drop-overlay_behind position q buffer f.content behind)

-- `pwrite` leaves alone what lies in front of the bytes written and inside the old file, and what
-- lies behind them.
pread-pwrite_apart :
    (f : MemoryFile) (position q n : ℕ) (buffer : List ℕ)
    → ((q + n ≤ position) × (q + n ≤ length f.content)) ⊎ (position + length buffer ≤ q)
    → (pwrite f (pos position) buffer >>= λ (_, f'). pread f' (pos q) n) ≡ pread f (pos q) n
unfolding pwrite
pread-pwrite_apart f position q n buffer h =
    pread-window _ q n ∙ ap ok (window-overlay f position q n buffer h) ∙ sym (pread-window f q n)

-- The bytes up to the end of a write: those in front of it, and those written.
pub front-overlay :
    (position : ℕ) (a content : List ℕ)
    → front (position + length a) (overlay position a content) ≡ front position content ++ a
front-overlay position a content =
    front_within (position + length a) (overlay position a content)
      (omega (arith, length-overlay position a content))
    ∙ ap (take (position + length a))
        (overlay_lem position a content ∙ sym (append_assoc (front position content) a _))
    ∙ take-append_ge (position + length a) 0 (front position content ++ a) _
        (omega (arith, length-append (front position content) a, length-front position content))
    ∙ append-nil (front position content ++ a)

overlay-overlay :
    (position : ℕ) (a b content : List ℕ)
    → overlay (position + length a) b (overlay position a content)
      ≡ overlay position (a ++ b) content
overlay-overlay position a b content =
    overlay_lem (position + length a) b O
    ∙ ap₂ ◌++◌ first second
    ∙ append_assoc (front position content) a (b ++ drop (position + length (a ++ b)) content)
    ∙ ap (λ t. front position content ++ t) (sym (append_assoc a b _))
    ∙ sym (overlay_lem position (a ++ b) content)
  where
    O : List ℕ
    O = overlay position a content

    first : front (position + length a) O ≡ front position content ++ a
    first = front-overlay position a content

    second :
        b ++ drop (position + length a + length b) O
        ≡ b ++ drop (position + length (a ++ b)) content
    second =
        ap (λ t. b ++ t)
          (drop-overlay_behind position (position + length a + length b) a content (omega arith)
            ∙ ap (λ k. drop k content) (omega (arith, length-append a b)))

-- Two writes one after the other leave the file that one write of both buffers leaves.
write-write :
    (f : MemoryFile) (a b : List ℕ)
    → (write f a >>= λ (_, f'). write f' b >>= λ (_, f''). ok f'')
      ≡ (write f (a ++ b) >>= λ (_, f'). ok f')
unfolding write
write-write f a b =
    ap₂ (λ c p. ok (record { content = c; position = p }))
      (overlay-overlay f.position a b f.content) (omega (arith, length-append a b))

-- What was written is read back after `seek` to where the file stood.
pub read-seek-write :
    (f : MemoryFile) (buffer : List ℕ)
    → (write f buffer >>= λ (n, f'). seek f' (pos f.position) >>= λ f''. read f'' n)
      ≡ (write f buffer >>= λ (_, f'). ok (buffer, f'))
unfolding write seek
read-seek-write f buffer =
    read-window _ (length buffer)
    ∙ ap (λ got. ok (got, record { content = content'; position = f.position + length got })) got
  where
    content' : List ℕ
    content' = overlay f.position buffer f.content

    got : take (length buffer) (drop f.position content') ≡ buffer
    got =
        ap (take (length buffer)) (drop-overlay f.position buffer f.content)
        ∙ take-append_ge (length buffer) 0 buffer _ (omega arith)
        ∙ append-nil buffer
