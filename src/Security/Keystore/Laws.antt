-- ===== src/Security/Keystore/Laws.antt =====
-- What the keystore finds.
use trunk.Prelude.{ℕ, ◌≡◌, refl, [], ◌∷◌, true, ◌==◌, if◌then◌else◌, arith}
use trunk.Security.Key.{Cipher, Key, same_key, fingerprint}
use trunk.Security.Keystore.{Keystore, add_once, add_under, find_under, add, find}

pub same_key_refl : (k : Key) → same_key k k ≡ true
unfolding same_key
same_key_refl [] = refl
same_key_refl (a ∷ k) = ground (arith, same_key_refl k)

find-add_under :
    (fp fp' : ℕ) (key : Key) (store : Keystore)
    → find_under fp' (add_under fp key store)
      ≡ (if fp == fp' then add_once key (find_under fp' store) else find_under fp' store)
unfolding find_under add_under
find-add_under fp fp' key [] = refl
find-add_under fp fp' key ((fp'', keys) ∷ store) = ground (arith, find-add_under fp fp' key store)

-- After `add`, `find` of the key's fingerprint gives the keys it gave before, and the key behind
-- them unless it is one of them; `find` of any other fingerprint gives what it gave before.
pub find-add :
    (cipher : Cipher) (key : Key) (fp : ℕ) (store : Keystore)
    → find fp (add cipher key store)
      ≡ (if fingerprint cipher key == fp then add_once key (find fp store) else find fp store)
unfolding find add
find-add cipher key fp store = find-add_under (fingerprint cipher key) fp key store
