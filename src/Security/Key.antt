-- ===== src/Security/Key.antt =====
-- security/key.h and security/key.cc: a key is its array of bytes.
-- The cipher of OpenSSL is a parameter, with what its manual says of it.
use trunk.Prelude.{
  ℕ, ◌+◌, ◌≤◌, ◌<◌, ◌≡◌, List, [], ◌∷◌, Option, some, Bool, true, false, ◌&&◌, ◌==◌, length,
  replicate, All,
}
use trunk.Prelude.Endian.{load}

-- ChaCha20-Poly1305 under a key and a nonce: sealed, the text is followed by a tag; opened, a text
-- that was not sealed so is refused, and something else is left where the text should go.
-- The last is the stream cipher alone, which is added to its input.
pub record Cipher : Type 0 where
  pub aead_seal : List ℕ → List ℕ → List ℕ → List ℕ
  pub aead_open : List ℕ → List ℕ → List ℕ → Option (List ℕ)
  pub aead_refused : List ℕ → List ℕ → List ℕ → List ℕ
  pub chacha_20 : List ℕ → List ℕ → List ℕ → List ℕ
  pub aead_open-seal : (k n xs : List ℕ) → aead_open k n (aead_seal k n xs) ≡ some xs
  pub length-seal : (k n xs : List ℕ) → length (aead_seal k n xs) ≡ length xs + 16
  pub length-open : (k n xs ys : List ℕ) → aead_open k n xs ≡ some ys → length ys ≤ length xs
  pub length-refused : (k n xs : List ℕ) → length (aead_refused k n xs) ≤ length xs
  pub length-chacha_20 : (xs k n : List ℕ) → length (chacha_20 xs k n) ≡ length xs
  pub chacha_20-IsByte : (xs k n : List ℕ) → All (λ b. b < 256) (chacha_20 xs k n)

abbrev pub Key : Type 0
Key = List ℕ

-- `operator==`, which compares the arrays.
unfoldable pub same_key : Key → Key → Bool
same_key [] [] = true
same_key [] (b ∷ bs) = false
same_key (a ∷ as') [] = false
same_key (a ∷ as') (b ∷ bs) = a == b && same_key as' bs

module _ (cipher : Cipher) where
  -- `compute_fingerprint`: eight zeros enciphered, read as a number.
  unfoldable pub fingerprint : Key → ℕ
  fingerprint key = load (cipher.chacha_20 (replicate 8 0) key (replicate 12 0))

  unfoldable pub encrypt : Key → List ℕ → List ℕ → List ℕ
  encrypt key nonce input = cipher.aead_seal key nonce input

  -- `none` is the largest number, which stands for a refusal.
  unfoldable pub decrypt : Key → List ℕ → List ℕ → Option (List ℕ)
  decrypt key nonce input = cipher.aead_open key nonce input
