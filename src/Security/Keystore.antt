-- ===== src/Security/Keystore.antt =====
-- security/keystore.h and security/keystore.cc: the keys of each fingerprint.
pub mod Laws
mod Tests
use trunk.Prelude.{ℕ, List, [], ◌∷◌, ◌++◌, Bool, true, false, ◌||◌, ◌==◌, if◌then◌else◌}
use trunk.Security.Key.{Cipher, Key, same_key, fingerprint}

-- The map from fingerprints to vectors of keys, as an association list.
abbrev pub Keystore : Type 0
Keystore = List (ℕ × List Key)

-- `std::find` in a vector of keys.
unfoldable pub has_key : Key → List Key → Bool
has_key key [] = false
has_key key (k ∷ keys) = same_key k key || has_key key keys

-- A key that its vector has already is not added again.
unfoldable pub add_once : Key → List Key → List Key
add_once key keys = if has_key key keys then keys else keys ++ (key ∷ [])

-- `keys_[fingerprint]`, which makes an empty vector where there is none, with the key added.
unfoldable pub add_under : ℕ → Key → Keystore → Keystore
add_under fp key [] = (fp, add_once key []) ∷ []
add_under fp key ((fp', keys) ∷ store) =
    if fp' == fp then (fp', add_once key keys) ∷ store else (fp', keys) ∷ add_under fp key store

unfoldable pub find_under : ℕ → Keystore → List Key
find_under fp [] = []
find_under fp ((fp', keys) ∷ store) = if fp' == fp then keys else find_under fp store

module _ (cipher : Cipher) where
  unfoldable pub add : Key → Keystore → Keystore
  add key store = add_under (fingerprint cipher key) key store

-- `find`, where no entry leaves an empty vector.
unfoldable pub find : ℕ → Keystore → List Key
find fp store = find_under fp store
