-- ===== src/Db/SsTable/Iterator/Entries.antt =====
-- What an iterator finds in a block that holds entries as the builder writes them.
use trunk.Prelude.{
  ℕ, zero, suc, ◌+◌, ◌-◌, ◌%◌, ◌^◌, ◌≤◌, ◌<◌, ◌≡◌, refl, ap, ap₂, sym, ◌∙◌, subst, List, [], ◌∷◌,
  ◌++◌, append_assoc, none, some, true, false, not, ◌&&◌, ltb, leb, ◌==◌, if_true, if_false, length,
  take, drop, length-append, drop-append_ge, drop-drop, take-append_le, take_all, arith,
}
use trunk.Prelude.Endian.{load, load-store}
use trunk.Db.SsTable.Builder.{entry}
use trunk.Db.SsTable.Reader.{PositionedFile, SsTable, load_s32, is_negative, size_of, span_text}
use trunk.Db.SsTable.Iterator.{Iterator, key, value, next, next_at, less, seek_loop}

size_of_small : (n : ℕ) → n < 2 ^ 31 → size_of n ≡ n
unfolding size_of
size_of_small n h = ground arith

no_overflow : (n : ℕ) → 8 + n < 2 ^ 31 → (not (is_negative n) && leb (2 ^ 31) (8 + n)) ≡ false
no_overflow n h = ground arith

apart : (a b : ℕ) → a < b → not (a == b) ≡ true
apart a b h = ground arith

entry_sizes : (k v : List ℕ) → length (entry k v) ≡ 8 + length k + length v
unfolding entry
entry_sizes k v = omega (arith, length-append k v)

module _ (pre k v post : List ℕ) where
  abbrev bytes : List ℕ
  bytes = pre ++ (entry k v ++ post)

  abbrev at : ℕ
  at = length pre

  behind : (j : ℕ) → drop (at + j) bytes ≡ drop j (entry k v ++ post)
  behind j = drop-append_ge (at + j) j pre (entry k v ++ post) refl

  length-bytes : length bytes ≡ at + 8 + length k + length v + length post
  unfolding entry
  length-bytes =
      omega (
        arith,
        length-append pre (entry k v ++ post),
        length-append (k ++ v) post,
        length-append k v,
      )

  -- A part of the bytes that ends inside them.
  inside : (n : ℕ) → n ≤ length bytes → leb n (length bytes) ≡ true
  inside n h = ground (arith, h)

  module _ (short : length bytes < 2 ^ 31) where
    key_size : load_s32 bytes at ≡ length k
    unfolding entry
    key_size =
        let start : at ≡ at + 0 = omega arith in
        ap (λ j. load_s32 bytes j) start
        ∙ ap (λ t. load (take 4 t)) (behind 0)
        ∙ load-store 4 (length k) (omega (arith, length-bytes))

    value_size : load_s32 bytes (at + 4) ≡ length v
    unfolding entry
    value_size =
        ap (λ t. load (take 4 t)) (behind 4) ∙ load-store 4 (length v) (omega (arith, length-bytes))

    span_key : span_text bytes (at + 8) (length k) ≡ some k
    unfolding span_text entry
    span_key =
        if_true (leb (at + 8 + length k) (length bytes)) _ _
          (inside (at + 8 + length k) (omega (arith, length-bytes)))
        ∙ ap some (
            ap (take (length k)) (behind 8 ∙ append_assoc k v post)
            ∙ take-append_le (length k) k (v ++ post) (omega arith)
            ∙ take_all (length k) k (omega arith))

    span_value : span_text bytes (at + 8 + length k) (length v) ≡ some v
    unfolding span_text entry
    span_value =
        let across : at + 8 + length k ≡ at + (8 + length k) = omega arith in
        if_true (leb (at + 8 + length k + length v) (length bytes)) _ _
          (inside (at + 8 + length k + length v) (omega (arith, length-bytes)))
        ∙ ap some (
            ap (λ n. take (length v) (drop n bytes)) across
            ∙ ap (take (length v)) (
                behind (8 + length k)
                ∙ sym (drop-drop (length k) 8 (entry k v ++ post))
                ∙ ap (drop (length k)) (append_assoc k v post)
                ∙ drop-append_ge (length k) 0 k (v ++ post) (omega arith))
            ∙ take-append_le (length v) v post (omega arith)
            ∙ take_all (length v) v (omega arith))

    key_length : size_of (load_s32 bytes at) ≡ length k
    key_length = ap size_of key_size ∙ size_of_small (length k) (omega (arith, length-bytes))

    value_length : size_of (load_s32 bytes (at + 4)) ≡ length v
    value_length = ap size_of value_size ∙ size_of_small (length v) (omega (arith, length-bytes))

    -- Tests that do not hold there.
    not_beyond : (n : ℕ) → n ≤ length bytes → ltb (length bytes) n ≡ false
    not_beyond n h = ground (arith, h)

    module _ (file : PositionedFile) (table : SsTable) (i : ℕ) where
      abbrev in_front : Iterator
      in_front = record { iter = i; buffer = bytes; offset = at }

      key_here : key in_front ≡ some k
      unfolding key
      key_here =
          if_false (ltb (length bytes) (at + 4)) _ _
            (not_beyond (at + 4) (omega (arith, length-bytes)))
          ∙ ap (span_text bytes (at + 8)) key_length
          ∙ span_key

      value_here : value in_front ≡ some v
      unfolding value
      value_here =
          let start : (at + 8 + size_of (load_s32 bytes at)) % 2 ^ 64 ≡ at + 8 + length k =
            omega (arith, length-bytes, key_length) in
          if_false (ltb (length bytes) (at + 8)) _ _
            (not_beyond (at + 8) (omega (arith, length-bytes)))
          ∙ ap₂ (span_text bytes) start value_length
          ∙ span_value

      next_here :
          0 < length post
          → next file table in_front
            ≡ some (record in_front { offset = at + length (entry k v) }, none)
      unfolding next next_at
      next_here more =
          let end : ℕ =
            (at + 8 + size_of (load_s32 bytes at) + size_of (load_s32 bytes (at + 4))) % 2 ^ 64 in
          let ends : end ≡ at + 8 + length k + length v =
            omega (arith, length-bytes, key_length, value_length) in
          let small : (not (is_negative (load_s32 bytes at))
                && leb (2 ^ 31) (8 + load_s32 bytes at))
              ≡ false =
            no_overflow (load_s32 bytes at) (omega (arith, key_size, length-bytes)) in
          let stays : not (end == length bytes) ≡ true =
            apart end (length bytes) (omega (arith, ends, length-bytes)) in
          if_false (ltb (length bytes) (at + 8)) _ _
            (not_beyond (at + 8) (omega (arith, length-bytes)))
          ∙ if_false (ltb (length bytes) end) _ _
              (not_beyond end (omega (arith, ends, length-bytes)))
          ∙ if_false _ _ _ small
          ∙ if_true (not (end == length bytes)) _ _ stays
          ∙ ap (λ n. some (record in_front { offset = n }, none))
              (ends ∙ omega (arith, entry_sizes k v))

-- A block of less than 2^31 bytes that holds an entry as the builder writes it, and an iterator in
-- front of it: the iterator's key and value are those of the entry, and `next` moves it behind the
-- entry if more follows there.
pub entry_lem :
    (file : PositionedFile) (table : SsTable) (pre k v post : List ℕ) (it : Iterator)
    → it.buffer ≡ pre ++ (entry k v ++ post)
    → it.offset ≡ length pre
    → length it.buffer < 2 ^ 31
    → 0 < length post
    → (key it ≡ some k)
      × (value it ≡ some v)
      × (next file table it ≡ some (record it { offset = length pre + length (entry k v) }, none))
entry_lem file table pre k v post it is at_pre short more =
    let b : List ℕ = pre ++ (entry k v ++ post) in
    let small : length b < 2 ^ 31 = subst (λ t. length t < 2 ^ 31) is short in
    let same : in_front pre k v post small file table it.iter ≡ it =
      ap₂ (λ t n. let j : Iterator = record { iter = it.iter; buffer = t; offset = n } in j)
        (sym is) (sym at_pre) in
    subst
      (λ j.
        (key j ≡ some k)
        × (value j ≡ some v)
        × (next file table j ≡ some (record j { offset = length pre + length (entry k v) }, none)))
      same
      (
        key_here pre k v post small file table it.iter,
        value_here pre k v post small file table it.iter,
        next_here pre k v post small file table it.iter more,
      )

stuck_key :
    (it : Iterator)
    → load_s32 it.buffer it.offset ≡ 0
    → it.offset + 8 < length it.buffer
    → key it ≡ some []
unfolding key span_text
stuck_key it no_key room =
    let here : ltb (length it.buffer) (it.offset + 4) ≡ false = ground arith in
    let fits : leb (it.offset + 8 + 0) (length it.buffer) ≡ true = ground arith in
    let none_long : size_of (load_s32 it.buffer it.offset) ≡ 0 =
      ap size_of no_key ∙ size_of_small 0 (omega arith) in
    if_false (ltb (length it.buffer) (it.offset + 4)) _ _ here
    ∙ ap (span_text it.buffer (it.offset + 8)) none_long
    ∙ if_true (leb (it.offset + 8 + 0) (length it.buffer)) _ _ fits

stuck_next :
    (file : PositionedFile) (table : SsTable) (it : Iterator)
    → load_s32 it.buffer it.offset ≡ 0
    → load_s32 it.buffer (it.offset + 4) ≡ 2 ^ 32 - 8
    → it.offset + 8 < length it.buffer
    → length it.buffer < 2 ^ 31
    → next file table it ≡ some (it, none)
unfolding next next_at size_of
stuck_next file table it no_key value_size room short =
    let key_size = size_of (load_s32 it.buffer it.offset) in
    let end : ℕ =
      (it.offset + 8 + key_size + size_of (load_s32 it.buffer (it.offset + 4))) % 2 ^ 64 in
    let none_long : key_size ≡ 0 = ap size_of no_key in
    let wraps : size_of (load_s32 it.buffer (it.offset + 4)) ≡ 2 ^ 64 - 8 = ap size_of value_size in
    let ends : end ≡ it.offset = omega (arith, none_long, wraps, room, short) in
    let in_front : ltb (length it.buffer) (it.offset + 8) ≡ false = ground arith in
    let inside : ltb (length it.buffer) end ≡ false = ground (arith, ends) in
    if_false (ltb (length it.buffer) (it.offset + 8)) _ _ in_front
    ∙ if_false (ltb (length it.buffer) end) _ _ inside
    ∙ if_false _ _ _ (no_overflow (load_s32 it.buffer it.offset) (omega (arith, no_key)))
    ∙ if_true (not (end == length it.buffer)) _ _
        (apart end (length it.buffer) (omega (arith, ends)))
    ∙ ap (λ n. some (record it { offset = n }, none)) ends

stuck_loop :
    (file : PositionedFile) (table : SsTable) (fuel : ℕ) (target : List ℕ) (it : Iterator)
    → key it ≡ some []
    → next file table it ≡ some (it, none)
    → 0 < length target
    → seek_loop file table fuel target it ≡ none
unfolding seek_loop less
stuck_loop file table zero target it keyed stays h = refl
stuck_loop file table (suc fuel) [] it keyed stays h = absurd (omega arith)
stuck_loop file table (suc fuel) (b ∷ bs) it keyed stays h =
    rw (keyed, stays) (stuck_loop file table fuel (b ∷ bs) it keyed stays h)

-- An entry whose key has no bytes and whose value is said to have eight fewer than none, in a block
-- of less than 2^31 bytes that goes on behind it: the iterator's key is empty, `next` leaves the
-- iterator where it is and gives no error, and so the loop of `seek` for a key with a byte at least
-- comes to no end, whatever the fuel.
pub seek_stuck :
    (file : PositionedFile) (table : SsTable) (fuel : ℕ) (target : List ℕ) (it : Iterator)
    → load_s32 it.buffer it.offset ≡ 0
    → load_s32 it.buffer (it.offset + 4) ≡ 2 ^ 32 - 8
    → it.offset + 8 < length it.buffer
    → length it.buffer < 2 ^ 31
    → 0 < length target
    → (key it ≡ some [])
      × (next file table it ≡ some (it, none))
      × (seek_loop file table fuel target it ≡ none)
seek_stuck file table fuel target it no_key value_size room short some_target =
    let keyed = stuck_key it no_key room in
    let stays = stuck_next file table it no_key value_size room short in
    (keyed, stays, stuck_loop file table fuel target it keyed stays some_target)
