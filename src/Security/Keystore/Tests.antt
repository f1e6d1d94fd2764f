-- ===== src/Security/Keystore/Tests.antt =====
-- Runs of the keystore, and its theorem at concrete keys.
use trunk.Prelude.{◌≡◌, refl, [], ◌∷◌}
use trunk.Security.Key.{Key, same_key, fingerprint}
use trunk.Security.Keystore.{Keystore, has_key, add_once, add_under, add}
use trunk.Security.Plain.{plain}

abbrev first_key : Key
first_key = 1 ∷ 2 ∷ []

abbrev second_key : Key
second_key = 3 ∷ 4 ∷ []

abbrev one_key : Keystore
one_key = (0, first_key ∷ []) ∷ []

-- A key that is there is not added again, another one is put behind it.
add_again : add plain first_key one_key ≡ one_key
unfolding add add_under add_once has_key same_key fingerprint
add_again = refl

add_second : add plain second_key one_key ≡ (0, first_key ∷ second_key ∷ []) ∷ []
unfolding add add_under add_once has_key same_key fingerprint
add_second = refl
