-- ===== src/Net/Types/Text.antt =====
-- The colon in front of a port, and what stands around it.
use trunk.Prelude.{
  ℕ, zero, suc, ◌+◌, ◌-◌, ◌<◌, ◌≡◌, refl, ap, sym, ◌∙◌, List, [], ◌∷◌, ◌++◌, append-nil, none, some,
  true, false, ◌==◌, ==_iff, if_true, if_false, length, take, drop, All, length-append,
  take-append_ge, drop-append_ge, arith,
}
use trunk.Util.Strings.{is_digit, consume_int}
use trunk.Util.Strings.Decimal.{consume_int-digits}
use trunk.Net.Types.{Texts, rfind, is_at, is_bracketed, colon, uint16, only, port_at}

-- A text without a character.
abbrev pub Without : ℕ → List ℕ → Type 0
Without c string = All (λ x. (x == c) ≡ false) string

rfind-Without : (c : ℕ) (string : List ℕ) → Without c string → rfind c string ≡ none
unfolding rfind
rfind-Without c [] all = refl
rfind-Without c (x ∷ string) (h, all) = rw (rfind-Without c string all, h) refl

rfind-append :
    (c : ℕ) (front behind : List ℕ)
    → Without c behind
    → rfind c (front ++ c ∷ behind) ≡ some (length front)
unfolding rfind
rfind-append c [] behind all = rw (rfind-Without c behind all) (if_true _ _ _ ((==_iff c c).1 refl))
rfind-append c (x ∷ front) behind all = rw (rfind-append c front behind all) refl

pub colon-append :
    (front behind : List ℕ)
    → Without 58 behind
    → 0 < length behind
    → colon (front ++ 58 ∷ behind) ≡ some (length front)
unfolding colon
colon-append front behind all some_digit =
    rw (colon, rfind-append 58 front behind all)
      (if_false (length front + 1 == length (front ++ 58 ∷ behind)) none (some (length front))
        (ground (arith, length-append front (58 ∷ behind))))

pub front-append : (front behind : List ℕ) → take (length front) (front ++ behind) ≡ front
front-append front behind =
    take-append_ge (length front) 0 front behind (omega arith) ∙ append-nil front

is_digit-colon : (c : ℕ) → is_digit c ≡ true → (c == 58) ≡ false
unfolding is_digit
is_digit-colon c h = ground arith

digits-Without : (digits : List ℕ) → All (λ c. is_digit c ≡ true) digits → Without 58 digits
digits-Without [] all = tt
digits-Without (c ∷ digits) (h, all) = (is_digit-colon c h, digits-Without digits all)

is_at-append :
    (front behind : List ℕ) (x c pos : ℕ)
    → pos ≡ length front
    → is_at (front ++ x ∷ behind) pos c ≡ (x == c)
unfolding is_at
is_at-append [] behind x c pos e = rw e refl
is_at-append (y ∷ front) behind x c zero e = absurd (omega arith)
is_at-append (y ∷ front) behind x c (suc pos) e = is_at-append front behind x c pos (omega arith)

-- A text in brackets.
pub is_bracketed-brackets :
    (inside behind : List ℕ) → is_bracketed (91 ∷ inside ++ 93 ∷ behind) (length inside + 2) ≡ true
unfolding is_bracketed is_at
is_bracketed-brackets inside behind =
    let at : is_at (91 ∷ inside ++ 93 ∷ behind) (length inside + 2 - 1) 93 ≡ true =
      is_at-append (91 ∷ inside) behind 93 93 (length inside + 2 - 1) (omega arith) in
    ground (arith, at)

-- A text that does not begin with a bracket.
pub is_bracketed-Without :
    (front behind : List ℕ) (pos : ℕ)
    → Without 91 front
    → is_bracketed (front ++ 58 ∷ behind) pos ≡ false
unfolding is_bracketed is_at
is_bracketed-Without [] behind pos all = ground arith
is_bracketed-Without (x ∷ front) behind pos (h, all) = ground (arith, h)

module _ (texts : Texts) where
  open texts use {str_cat}

  pub str_cat-Without : (port : ℕ) → Without 58 (str_cat port)
  str_cat-Without port = digits-Without (str_cat port) (texts.str_cat-IsDigits port)

  -- The port is read back.
  pub port_at-str_cat :
      (front : List ℕ) (port : ℕ)
      → port < 65536
      → port_at (front ++ 58 ∷ str_cat port) (length front) ≡ some port
  unfolding port_at only
  port_at-str_cat front port h =
      let digits : List ℕ = str_cat port in
      let number_is = texts.number-str_cat port in
      let behind : drop (length front + 1) (front ++ 58 ∷ digits) ≡ digits ++ [] =
        drop-append_ge (length front + 1) 1 front (58 ∷ digits) refl ∙ sym (append-nil digits) in
      ap (λ text. only (consume_int uint16 text)) behind
      ∙ ap only (
          consume_int-digits uint16 digits [] (texts.str_cat-IsDigits port) tt
            (texts.length-str_cat port) (omega (arith, number_is)))
      ∙ ap some number_is
