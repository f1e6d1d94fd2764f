-- ===== src/Util/Varint/Parse.antt =====
-- `parse_varint` on what `append_varint` writes, and on any bytes.
use trunk.Prelude.{
  ℕ, zero, suc, ◌+◌, ◌*◌, ◌/◌, ◌%◌, ◌^◌, ◌≤◌, ◌<◌, ◌≡◌, ◌↔◌, refl, ap, ◌∙◌, bit_and, bit_or, List,
  [], ◌∷◌, ◌++◌, some, ltb, leb, length, All, Bool-cases, ltb→lt, inl, inr, arith,
}
use trunk.Prelude.Bits.{all_below, agree, bit_and-0x7f, bit_or-add}
use trunk.Util.Varint.{append_varint, shifted, converted, parse_loop, parse_varint}
use trunk.Util.Varint.{done, failed, undefined}
use trunk.Util.Varint.Groups.{groups, append_varint-groups}
use native.Mathlib.Numerals.{towards_suc}
use native.Mathlib.Nat.{div-add-mod, pow-suc}

top_bit : (b : ℕ) → b < 256 → bit_and b 0x80 ≡ b / 128 * 128
unfolding all_below
top_bit b h = agree 256 (λ i. bit_and i 0x80) (λ i. i / 128 * 128) b refl h

pow_groups : (j : ℕ) → 2 ^ ((j + 1) * 7) ≡ 128 * 2 ^ (j * 7)
pow_groups j = ap (λ (t : ℕ). 2 ^ t) e ∙ simp towards_suc (omega arith)
  where
    e : (j + 1) * 7 ≡ j * 7 + 7
    e = omega arith

-- A value that goes on behind the group at place `j` leaves room for one more place.
room : (j v : ℕ) → j ≤ 4 → 128 ≤ v → v * 2 ^ (j * 7) < 2 ^ 32 → j + 1 ≤ 4
room zero v hj hv h = omega arith
room (suc zero) v hj hv h = omega arith
room (suc (suc zero)) v hj hv h = omega arith
room (suc (suc (suc zero))) v hj hv h = omega arith
room (suc (suc (suc (suc zero)))) v hj hv h = absurd (omega arith)
room (suc (suc (suc (suc (suc j))))) v hj hv h = absurd (omega arith)

split_value : (v j : ℕ) → v * 2 ^ (j * 7) ≡ v % 128 * 2 ^ (j * 7) + v / 128 * 2 ^ ((j + 1) * 7)
split_value v j = omega (
  arith,
  ap (λ (t : ℕ). t * 2 ^ (j * 7)) (div-add-mod v 128),
  ap (λ (t : ℕ). v / 128 * t) (pow_groups j),
)

low_group : (v j r : ℕ) → r < 2 ^ (j * 7) → r + v % 128 * 2 ^ (j * 7) < 2 ^ ((j + 1) * 7)
low_group v j r h = grind (arith, pow_groups j)

-- Below `limit` a conversion from `int` keeps the value.
module _ (w limit : ℕ) (small : limit ≤ 2 ^ 32)
    (keeps : (x : ℕ) → x < limit → converted w x ≡ x) where
  or_group :
      (c j r g : ℕ)
      → bit_and c 0x7f ≡ g
      → r < 2 ^ (j * 7)
      → g * 2 ^ (j * 7) < limit
      → bit_or r (converted w (shifted c j)) ≡ r + g * 2 ^ (j * 7)
  unfolding shifted
  or_group c j r g e hr hl =
      ap (λ t. bit_or r (converted w t)) short
      ∙ ap (bit_or r) (keeps _ hl)
      ∙ bit_or-add (j * 7) r g hr
    where
      short : bit_and c 0x7f * 2 ^ (j * 7) % 2 ^ 32 ≡ g * 2 ^ (j * 7)
      short = rw e (omega arith)

  last_group :
      (v j r : ℕ) (rest : List ℕ)
      → j ≤ 4
      → v < 128
      → r < 2 ^ (j * 7)
      → v * 2 ^ (j * 7) < limit
      → parse_loop w (v ∷ rest) j r ≡ done (r + v * 2 ^ (j * 7)) rest
  unfolding parse_loop
  last_group v j r rest hj hv hr hl =
      ground (arith, top_bit v, or_group v j r v (bit_and-0x7f v ∙ omega arith) hr hl)

  inner_group :
      (g j r : ℕ) (rest : List ℕ)
      → j ≤ 4
      → g < 128
      → r < 2 ^ (j * 7)
      → g * 2 ^ (j * 7) < limit
      → parse_loop w ((g + 128) ∷ rest) j r ≡ parse_loop w rest (j + 1) (r + g * 2 ^ (j * 7))
  unfolding parse_loop
  inner_group g j r rest hj hg hr hl = ground (
    arith,
    top_bit (g + 128),
    or_group (g + 128) j r g (bit_and-0x7f (g + 128) ∙ omega arith) hr hl,
  )

  parse_loop-groups :
      (k j v r : ℕ) (rest : List ℕ)
      → j ≤ 4
      → v < 128 ^ suc k
      → r < 2 ^ (j * 7)
      → v * 2 ^ (j * 7) < limit
      → parse_loop w (groups k v ++ rest) j r ≡ done (r + v * 2 ^ (j * 7)) rest
  unfolding groups
  parse_loop-groups zero j v r rest hj hv hr hl = last_group v j r rest hj (omega arith) hr hl
  parse_loop-groups (suc k) j v r rest hj hv hr hl = elim (Bool-cases (ltb v 128)) [
    | inl e ↦ rw (e, groups) (last_group v j r rest hj (ltb→lt v 128 e) hr hl)
    | inr e ↦
        rw (e, groups)
          (inner_group (v % 128) j r (groups k (v / 128) ++ rest) hj (omega arith) hr
              (omega (arith, split_value v j))
            ∙ parse_loop-groups k (j + 1) (v / 128) (r + v % 128 * 2 ^ (j * 7)) rest
                (room j v hj (ground arith) (omega arith)) (omega arith) (low_group v j r hr)
                (omega (arith, split_value v j))
            ∙ ap (λ t. done t rest) (omega (arith, split_value v j)))
  ]

  parse-append_below :
      (v : ℕ) (rest : List ℕ) {written : List ℕ}
      → v < limit
      → append_varint v [] ≡ some written
      → parse_varint w (written ++ rest) ≡ done v rest
  unfolding parse_varint
  parse-append_below v rest {written} h e = rw is (
      parse_loop-groups 9 0 v 0 rest (omega arith) (omega arith) (omega arith) (omega arith)
      ∙ ap (λ t. done t rest) (omega arith))
    where
      is : written ≡ groups 9 v
      is = cc (append_varint-groups v [] (omega arith))

keeps_u32 : (x : ℕ) → x < 2 ^ 32 → converted 32 x ≡ x
unfolding converted
keeps_u32 x h = omega arith

keeps_int : (w : ℕ) → 32 ≤ w → (x : ℕ) → x < 2 ^ 31 → converted w x ≡ x
unfolding converted
keeps_int w h x hx = elim (Bool-cases (leb w 32)) [
  | inl e ↦ let q : w ≡ 32 = ground arith in rw q (keeps_u32 x (omega arith))
  | inr e ↦ ground arith
]

-- For T = uint32_t, `parse_varint` reads back every value that `append_varint` wrote, and leaves
-- the bytes behind it.
pub parse-append_u32 :
    (v : ℕ) (rest : List ℕ) {written : List ℕ}
    → v < 2 ^ 32
    → append_varint v [] ≡ some written
    → parse_varint 32 (written ++ rest) ≡ done v rest
parse-append_u32 = parse-append_below 32 (2 ^ 32) (omega arith) keeps_u32

-- For a T of 32 bits or more, `parse_varint` reads back every value below 2^31 that `append_varint`
-- wrote, and leaves the bytes behind it.
parse-append_int :
    (w : ℕ)
    → 32 ≤ w
    → (v : ℕ) (rest : List ℕ) {written : List ℕ} → v < 2 ^ 31
    → append_varint v [] ≡ some written
    → parse_varint w (written ++ rest) ≡ done v rest
parse-append_int w h = parse-append_below w (2 ^ 31) (omega arith) (keeps_int w h)

pow-pos : (n : ℕ) → 1 ≤ 128 ^ n
pow-pos zero = omega arith
pow-pos (suc n) = omega (arith, pow-suc 128 n, pow-pos n)

groups-more : (k v : ℕ) → 128 ≤ v → groups (suc k) v ≡ (v % 128 + 128) ∷ groups k (v / 128)
unfolding groups
groups-more k v h = ground arith

-- `n` places before the sixth one, a value of more than `n` groups is still being read.
parse_loop-undefined :
    (w n k j v r : ℕ) (rest : List ℕ)
    → n + j ≡ 5
    → v < 128 ^ suc k
    → 128 ^ n ≤ v
    → parse_loop w (groups k v ++ rest) j r ≡ undefined
unfolding parse_loop groups
parse_loop-undefined w zero zero j v r rest hj hv h = ground arith
parse_loop-undefined w zero (suc k) j v r rest hj hv h = ground arith
parse_loop-undefined w (suc n) zero j v r rest hj hv h =
    absurd (omega (arith, pow-suc 128 n, pow-pos n))
parse_loop-undefined w (suc n) (suc k) j v r rest hj hv h =
    let big : 128 ≤ v = omega (arith, pow-suc 128 n, pow-pos n) in
    rw (groups-more k v big) (
      ground (
        arith,
        top_bit (v % 128 + 128),
        parse_loop-undefined w n k (j + 1) (v / 128)
            (bit_or r (converted w (shifted (v % 128 + 128) j))) rest (omega arith) (omega arith)
            (omega (arith, pow-suc 128 n)),
      ))

-- A value of 36 bits or more takes six groups, and reading the sixth shifts an `int` by 35:
-- whatever the type, `parse_varint` has undefined behaviour on what `append_varint` wrote.
pub parse-append_undefined :
    (w v : ℕ) (rest : List ℕ) {written : List ℕ}
    → 2 ^ 35 ≤ v
    → v < 2 ^ 64
    → append_varint v [] ≡ some written
    → parse_varint w (written ++ rest) ≡ undefined
unfolding parse_varint
parse-append_undefined w v rest {written} lo hi e =
    rw is (parse_loop-undefined w 5 9 0 v 0 rest (omega arith) (omega arith) (omega arith))
  where
    is : written ≡ groups 9 v
    is = cc (append_varint-groups v [] hi)

abbrev Unended : List ℕ → ℕ → Type 0
Unended input size = All (λ b. 128 ≤ b) input × (length input + size ≤ 5)

parse_loop-failed :
    (w : ℕ) (input : List ℕ) (size r : ℕ)
    → All (λ b. b < 256) input
    → size ≤ 5
    → parse_loop w input size r ≡ failed
    → Unended input size
unfolding parse_loop
parse_loop-failed w [] size r bytes h e = (tt, omega arith)
parse_loop-failed w (b ∷ bs) size r bytes h e = ground (
  arith,
  top_bit b,
  parse_loop-failed w bs (size + 1) (bit_or r (converted w (shifted b size))) bytes.1,
)

parse_loop-Unended :
    (w : ℕ) (input : List ℕ) (size r : ℕ)
    → All (λ b. b < 256) input
    → Unended input size
    → parse_loop w input size r ≡ failed
unfolding parse_loop
parse_loop-Unended w [] size r bytes h = refl
parse_loop-Unended w (b ∷ bs) size r bytes h = ground (
  arith,
  top_bit b,
  parse_loop-Unended w bs (size + 1) (bit_or r (converted w (shifted b size))) bytes.1,
)

-- `parse_varint` answers false exactly when every byte of the input has its top bit set and the
-- input is no longer than the five places that an `int` can be shifted to.
pub parse-failed_iff :
    (w : ℕ) (input : List ℕ)
    → All (λ b. b < 256) input
    → (parse_varint w input ≡ failed) ↔ (All (λ b. 128 ≤ b) input × (length input ≤ 5))
unfolding parse_varint
parse-failed_iff w input bytes = (
  λ e. let (all, fits) = parse_loop-failed w input 0 0 bytes (omega arith) e in (all, omega arith),
  λ h. parse_loop-Unended w input 0 0 bytes (h.0, omega arith),
)
