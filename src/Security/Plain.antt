-- ===== src/Security/Plain.antt =====
-- A cipher that hides nothing, to run the code that has one as a parameter.
use trunk.Prelude.{
  ℕ, ◌+◌, ◌-◌, ◌≤◌, ◌<◌, ◌≡◌, ap, subst, ◌∙◌, List, [], ◌∷◌, ◌++◌, Option, none, some, true, leb,
  if◌then◌else◌, if_true, if_false, Bool-cases, inl, inr, length, replicate, take, length-append,
  length-take, length-replicate, take-append_le, take_all, All, arith,
}
use trunk.Security.Key.{Cipher}

abbrev pub tag : List ℕ
tag = replicate 16 0

abbrev pub open_plain : List ℕ → Option (List ℕ)
open_plain xs = if leb 16 (length xs) then some (take (length xs - 16) xs) else none

abbrev pub zeros : List ℕ → List ℕ
zeros xs = replicate (length xs) 0

pub zeros_small : (xs : List ℕ) → All (λ b. b < 256) (zeros xs)
zeros_small [] = tt
zeros_small (x ∷ xs) = (omega arith, zeros_small xs)

pub open-seal : (xs : List ℕ) → open_plain (xs ++ tag) ≡ some xs
open-seal xs =
    let n : length (xs ++ tag) ≡ length xs + 16 = length-append xs tag in
    let long : leb 16 (length (xs ++ tag)) ≡ true = ground (arith, n) in
    let cut : length (xs ++ tag) - 16 ≡ length xs = omega (arith, n) in
    if_true (leb 16 (length (xs ++ tag))) _ _ long
    ∙ ap (λ k. some (take k (xs ++ tag))) cut
    ∙ ap some
        (take-append_le (length xs) xs tag (omega arith) ∙ take_all (length xs) xs (omega arith))

pub length-open_plain : (xs ys : List ℕ) → open_plain xs ≡ some ys → length ys ≤ length xs
length-open_plain xs ys e = elim (Bool-cases (leb 16 (length xs))) [
  | inl long ↦
      let same : take (length xs - 16) xs ≡ ys =
        cc (e, if_true _ (some (take (length xs - 16) xs)) none long) in
      subst (λ zs. length zs ≤ length xs) same (omega (arith, length-take (length xs - 16) xs))
  | inr short ↦ absurd (cc (e, if_false _ (some (take (length xs - 16) xs)) none short))
]

abbrev pub plain : Cipher
plain = record {
  aead_seal = λ k n xs. xs ++ tag;
  aead_open = λ k n xs. open_plain xs;
  aead_refused = λ k n xs. [];
  chacha_20 = λ xs k n. zeros xs;
  aead_open-seal = λ k n xs. open-seal xs;
  length-seal = λ k n xs. length-append xs tag;
  length-open = λ k n xs ys e. length-open_plain xs ys e;
  length-refused = λ k n xs. omega arith;
  length-chacha_20 = λ xs k n. length-replicate _ _;
  chacha_20-IsByte = λ xs k n. zeros_small xs;
}
