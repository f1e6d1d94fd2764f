-- ===== src/Net/Rpc/Assembly/Lists.antt =====
-- The bytes of a list by their places, after the writes of an assembly.
use trunk.Prelude.{
  ℕ, zero, suc, ◌+◌, ◌-◌, ◌≤◌, ◌<◌, ◌≡◌, refl, ap, ◌∙◌, List, [], ◌∷◌, ◌++◌, none, some, ◌&&◌, ltb,
  leb, if◌then◌else◌, take, drop, length, replicate, get_elem?, length-append, length-take,
  length-drop, length-replicate, arith,
}
use trunk.Net.Rpc.Assembly.{grow, put}

module _ {A : Type 0} where
  pub get_elem?-lt : (xs : List A) (i : ℕ) → i < length xs → (x : A) × (get_elem? xs i ≡ some x)
  get_elem?-lt [] i h = absurd (omega arith)
  get_elem?-lt (x ∷ xs) zero h = (x, refl)
  get_elem?-lt (x ∷ xs) (suc i) h = get_elem?-lt xs i (omega arith)

  pub lt-get_elem? : (xs : List A) (i : ℕ) (x : A) → get_elem? xs i ≡ some x → i < length xs
  lt-get_elem? [] i x h = absurd (cc h)
  lt-get_elem? (y ∷ xs) zero x h = omega arith
  lt-get_elem? (y ∷ xs) (suc i) x h = omega (arith, lt-get_elem? xs i x h)

  pub get_elem?-append :
      (xs ys : List A) (i : ℕ)
      → get_elem? (xs ++ ys) i
        ≡ (if ltb i (length xs) then get_elem? xs i else get_elem? ys (i - length xs))
  get_elem?-append [] ys i = ground arith
  get_elem?-append (x ∷ xs) ys zero = ground arith
  get_elem?-append (x ∷ xs) ys (suc i) = ground (arith, get_elem?-append xs ys i)

  pub get_elem?-take :
      (n : ℕ) (xs : List A) (i : ℕ)
      → get_elem? (take n xs) i ≡ (if ltb i n then get_elem? xs i else none)
  get_elem?-take zero xs i = ground arith
  get_elem?-take (suc n) [] i = ground arith
  get_elem?-take (suc n) (x ∷ xs) zero = ground arith
  get_elem?-take (suc n) (x ∷ xs) (suc i) = ground (arith, get_elem?-take n xs i)

  pub get_elem?-drop :
      (n : ℕ) (xs : List A) (i : ℕ) → get_elem? (drop n xs) i ≡ get_elem? xs (n + i)
  get_elem?-drop zero xs i = ap (get_elem? xs) (omega arith)
  get_elem?-drop (suc n) [] i = refl
  get_elem?-drop (suc n) (x ∷ xs) i = get_elem?-drop n xs i ∙ ap (get_elem? (x ∷ xs)) (e n i)
    where
      e : (n i : ℕ) → suc (n + i) ≡ suc n + i
      e n i = omega arith

  -- Lists of one length that agree at each place.
  pub take-ext :
      (xs m : List A)
      → ((i : ℕ) → i < length m → get_elem? xs i ≡ get_elem? m i)
      → take (length m) xs ≡ m
  take-ext xs [] h = refl
  take-ext [] (y ∷ m) h = absurd (cc (h 0 (omega arith)))
  take-ext (x ∷ xs) (y ∷ m) h = ground (arith, h 0, take-ext xs m (λ i k. h (suc i) (omega arith)))

pub length-put :
    (offset : ℕ) (text bytes : List ℕ)
    → offset + length text ≤ length bytes
    → length (put offset text bytes) ≡ length bytes
length-put offset text bytes h = omega (
  arith,
  length-append (take offset bytes) (text ++ drop (offset + length text) bytes),
  length-append text (drop (offset + length text) bytes),
  length-take offset bytes,
  length-drop (offset + length text) bytes,
)

pub length-grow :
    (n : ℕ) (bytes : List ℕ) → (n ≤ length (grow n bytes)) × (length bytes ≤ length (grow n bytes))
length-grow n bytes = ground (
  arith,
  length-append (take n bytes) (replicate (n - length bytes) 0),
  length-take n bytes,
  length-replicate {A = ℕ} (n - length bytes) 0,
)

-- Growing keeps every byte where it is.
pub get_elem?-grow :
    (n : ℕ) (bytes : List ℕ) (i x : ℕ)
    → get_elem? bytes i ≡ some x
    → get_elem? (grow n bytes) i ≡ some x
get_elem?-grow n bytes i x h = ground (
  arith,
  lt-get_elem? bytes i x h,
  get_elem?-append (take n bytes) (replicate (n - length bytes) 0) i,
  get_elem?-take n bytes i,
  length-take n bytes,
)

pub get_elem?-put :
    (offset : ℕ) (text bytes : List ℕ) (i : ℕ)
    → offset + length text ≤ length bytes
    → get_elem? (put offset text bytes) i ≡ (
        if leb offset i && ltb i (offset + length text)
        then get_elem? text (i - offset)
        else get_elem? bytes i)
get_elem?-put offset text bytes i h =
    let n : length (take offset bytes) ≡ offset = omega (arith, length-take offset bytes) in
    rw
      (
        get_elem?-append (take offset bytes) _ i,
        n,
        get_elem?-append text (drop (offset + length text) bytes) (i - offset),
        get_elem?-take offset bytes i,
        get_elem?-drop (offset + length text) bytes (i - offset - length text),
      )
      (ground arith)
