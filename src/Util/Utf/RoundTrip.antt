-- ===== src/Util/Utf/RoundTrip.antt =====
-- What `utf8_to_utf16` makes of the bytes that `utf16_to_utf8` wrote.
use trunk.Prelude.{
  ℕ, zero, suc, ◌+◌, ◌*◌, ◌/◌, ◌%◌, ◌^◌, ◌≤◌, ◌<◌, ◌≡◌, refl, ap, ◌∙◌, bit_or, List, [], ◌∷◌, ◌++◌,
  some, false, ltb, leb, not_lt→ltb, Bool-cases, tests, inl, inr, drop, length, All, length-append,
  drop-append_ge, arith,
}
use trunk.Prelude.Bits.{all_below, agree, bit_and-0x1f, bit_and-0x3f, bit_and-0x7f, add-bit_or}
use trunk.Prelude.Monad.{◌>>=◌}
use trunk.Util.Utf.{put_unit, utf16_to_utf8, width, at, get_unit, units_loop, utf8_to_utf16}

-- The leading byte of a character of one, two and three bytes.
width-ascii : (c : ℕ) → c < 128 → width c ≡ 1
unfolding width all_below
width-ascii c h = agree 128 width (λ _. 1) c refl h

two_bytes : (q : ℕ) → q < 32 → bit_or q 0xc0 ≡ q + 192
unfolding all_below
two_bytes q h = agree 32 (λ i. bit_or i 0xc0) (λ i. i + 192) q refl h

width-two_bytes : (q : ℕ) → q < 32 → width (q + 192) ≡ 2
unfolding width all_below
width-two_bytes q h = agree 32 (λ i. width (i + 192)) (λ _. 2) q refl h

three_bytes : (q : ℕ) → q < 16 → bit_or q 0xe0 ≡ q + 224
unfolding all_below
three_bytes q h = agree 16 (λ i. bit_or i 0xe0) (λ i. i + 224) q refl h

width-three_bytes : (q : ℕ) → q < 16 → width (q + 224) ≡ 3
unfolding width all_below
width-three_bytes q h = agree 16 (λ i. width (i + 224)) (λ _. 3) q refl h

following : (r : ℕ) → r < 64 → bit_or r 0x80 ≡ r + 128
unfolding all_below
following r h = agree 64 (λ i. bit_or i 0x80) (λ i. i + 128) r refl h

-- A character is read back where it is written in full.
read_two :
    (q r : ℕ) (rest : List ℕ)
    → q < 32
    → r < 64
    → get_unit ((q + 192) ∷ (r + 128) ∷ rest) ≡ q * 64 + r
unfolding get_unit
read_two q r rest hq hr =
    let eq : (q + 192) % 64 ≡ q = omega arith in
    let er : (r + 128) % 64 ≡ r = omega arith in
    rw (width-two_bytes q hq, bit_and-0x3f (q + 192), bit_and-0x3f (r + 128), eq, er)
      (omega (arith, add-bit_or 6 r q hr))

high : (q m : ℕ) → m < 64 → bit_or (q * 2 ^ 12) (m * 2 ^ 6) ≡ (q * 64 + m) * 2 ^ 6
high q m h = omega (arith, add-bit_or 12 (m * 2 ^ 6) q (omega arith))

read_three :
    (q m r : ℕ) (rest : List ℕ)
    → q < 16
    → m < 64
    → r < 64
    → get_unit ((q + 224) ∷ (m + 128) ∷ (r + 128) ∷ rest) ≡ (q * 64 + m) * 64 + r
unfolding get_unit
read_three q m r rest hq hm hr =
    let eq : (q + 224) % 32 ≡ q = omega arith in
    let em : (m + 128) % 64 ≡ m = omega arith in
    let er : (r + 128) % 64 ≡ r = omega arith in
    rw
      (
        width-three_bytes q hq,
        bit_and-0x1f (q + 224),
        bit_and-0x3f (m + 128),
        bit_and-0x3f (r + 128),
        eq,
        em,
        er,
        high q m hm,
      )
      (omega (arith, add-bit_or 6 r (q * 64 + m) hr))

-- The bytes of a unit, as sums.
put-short : (c : ℕ) → c ≤ 0x7f → put_unit c ≡ c ∷ []
unfolding put_unit
put-short c h = ground (arith)

put-two : (c : ℕ) → 0x7f < c → c ≤ 0x7ff → put_unit c ≡ (c / 64 + 192) ∷ (c % 64 + 128) ∷ []
unfolding put_unit
put-two c h g = ground (arith, two_bytes (c / 64), following (c % 64), bit_and-0x3f c)

put-three :
    (c : ℕ)
    → 0x7ff < c
    → c < 0x10000
    → put_unit c ≡ (c / 4096 + 224) ∷ (c / 64 % 64 + 128) ∷ (c % 64 + 128) ∷ []
unfolding put_unit
put-three c h g = ground (
  arith,
  three_bytes (c / 4096),
  following (c % 64),
  following (c / 64 % 64),
  bit_and-0x3f c,
  bit_and-0x3f (c / 64),
)

-- A unit as the loop sees it: the first byte tells how many there are, and they give the unit back.
record Readable (c : ℕ) (bytes : List ℕ) : Type 0 where
  counted : width (at bytes 0) ≡ length bytes
  given_back : (rest : List ℕ) → get_unit (bytes ++ rest) ≡ c
  some_byte : (b : ℕ) × (bs : List ℕ) × (bytes ≡ b ∷ bs)

Readable-short : (c : ℕ) → c ≤ 0x7f → Readable c (c ∷ [])
unfolding get_unit
Readable-short c h = record {
  counted = width-ascii c (omega arith);
  given_back = λ rest. rw (width-ascii c (omega arith)) (omega (arith, bit_and-0x7f c));
  some_byte = (c, [], refl);
}

Readable-two : (c : ℕ) → c ≤ 0x7ff → Readable c ((c / 64 + 192) ∷ (c % 64 + 128) ∷ [])
Readable-two c h = record {
  counted = width-two_bytes (c / 64) (omega arith);
  given_back = λ rest. read_two (c / 64) (c % 64) rest (omega arith) (omega arith) ∙ omega arith;
  some_byte = (_, _, refl);
}

Readable-three :
    (c : ℕ)
    → c < 0x10000
    → Readable c ((c / 4096 + 224) ∷ (c / 64 % 64 + 128) ∷ (c % 64 + 128) ∷ [])
Readable-three c h = record {
  counted = width-three_bytes (c / 4096) (omega arith);
  given_back = λ rest.
      read_three (c / 4096) (c / 64 % 64) (c % 64) rest (omega arith) (omega arith) (omega arith)
      ∙ omega arith;
  some_byte = (_, _, refl);
}

put_unit-Readable : (c : ℕ) → c < 0x10000 → Readable c (put_unit c)
put_unit-Readable c h = elim (Bool-cases (leb c 0x7f)) [
  | inl e ↦ rw (put-short c (omega tests)) (Readable-short c (omega tests))
  | inr e ↦ elim (Bool-cases (leb c 0x7ff)) [
    | inl e' ↦ rw (put-two c (ground arith) (omega tests)) (Readable-two c (omega tests))
    | inr e' ↦ rw (put-three c (ground arith) h) (Readable-three c h)
  ]
]

units_loop-Readable :
    (fuel c : ℕ) (bytes rest : List ℕ)
    → Readable c bytes
    → units_loop (suc fuel) (bytes ++ rest) ≡ (units_loop fuel rest >>= λ units. some (c ∷ units))
unfolding units_loop
units_loop-Readable fuel c [] rest h = absurd (cc (h.some_byte.2))
units_loop-Readable fuel c (b ∷ bs) rest h =
    let long : ltb (length (b ∷ bs ++ rest)) (width b) ≡ false =
      not_lt→ltb _ _ (omega (arith, h.counted, length-append bs rest)) in
    let behind : drop (width b) (b ∷ bs ++ rest) ≡ rest =
      drop-append_ge (width b) 0 (b ∷ bs) rest (omega (arith, h.counted)) in
    rw (long, behind, h.given_back rest) refl

units_loop-utf16_to_utf8 :
    (fuel : ℕ) (input : List ℕ)
    → All (λ c. c < 0x10000) input
    → length input ≤ fuel
    → units_loop fuel (utf16_to_utf8 input) ≡ some input
unfolding units_loop utf16_to_utf8
units_loop-utf16_to_utf8 fuel [] all h = refl
units_loop-utf16_to_utf8 zero (c ∷ input) all h = absurd (omega arith)
units_loop-utf16_to_utf8 (suc fuel) (c ∷ input) (small, all) h =
    units_loop-Readable fuel c (put_unit c) (utf16_to_utf8 input) (put_unit-Readable c small)
    ∙ ap (λ o. o >>= λ units. some (c ∷ units))
        (units_loop-utf16_to_utf8 fuel input all (omega arith))

length-utf16_to_utf8_ge :
    (input : List ℕ) → All (λ c. c < 0x10000) input → length input ≤ length (utf16_to_utf8 input)
unfolding utf16_to_utf8
length-utf16_to_utf8_ge [] all = omega arith
length-utf16_to_utf8_ge (c ∷ input) (small, all) =
    let (b, bs, e) = (put_unit-Readable c small).some_byte in
    omega (
      arith,
      length-append (put_unit c) (utf16_to_utf8 input),
      ap (λ (xs : List ℕ). length xs) e,
      length-utf16_to_utf8_ge input all,
    )

-- `utf8_to_utf16` reads back every string of 16-bit units that `utf16_to_utf8` wrote, lone
-- surrogates among them.
pub utf8_to_utf16-utf16_to_utf8 :
    (input : List ℕ)
    → All (λ c. c < 0x10000) input
    → utf8_to_utf16 (utf16_to_utf8 input) ≡ some input
unfolding utf8_to_utf16
utf8_to_utf16-utf16_to_utf8 input all =
    units_loop-utf16_to_utf8 (length (utf16_to_utf8 input)) input all
      (length-utf16_to_utf8_ge input all)
