-- ===== src/Net/Rpc/Server/Tests.antt =====
-- Runs of the server, and its theorems at a concrete request.
use trunk.Prelude.{
  ℕ, ◌≤◌, ◌≡◌, ◌≢◌, ◌⊎◌, refl, List, [], ◌∷◌, some, true, length, arith, inl, inr, All,
}
use trunk.Security.Plain.{plain}
use trunk.Security.Key.{Key}
use trunk.Security.Keystore
use trunk.Security.Keystore.{Keystore, find_under}
use trunk.Net.Rpc.Fragments.{Sending, fragment, pack_loop, pack}
use trunk.Net.Rpc.Fragments.Cut.{IsProper}
use trunk.Net.Rpc.Fragments.Among.{Among}
use trunk.Net.Rpc.Assembly.Runs.{runs}
use trunk.Net.Rpc.OperationKey.{OperationKey}
use trunk.Net.Rpc.Client.{message}
use trunk.Net.Rpc.Server.{call, same_text, has_handler, method_of, request_of, new_operation}
use trunk.Net.Rpc.Server.Method.{method_of-message}
use trunk.Net.Rpc.Server.AnyOrder.{unpack_all, request-any_order, request-each_arrived}

abbrev key : Key
key = 1 ∷ 2 ∷ []

abbrev store : Keystore
store = (0, key ∷ []) ∷ []

abbrev asking : Sending
asking = record { key = key; key_fingerprint = 0; request_id = 5; direction = 0; fragment_size = 3 }

asking-IsProper : IsProper asking
asking-IsProper = record {
  request_id_fits = omega arith;
  key_fingerprint_fits = omega arith;
  some_size = omega arith;
}

-- "a", of a method "m".
abbrev method : List ℕ
method = 109 ∷ []

abbrev input : List ℕ
input = 97 ∷ 98 ∷ []

abbrev asked : List ℕ
asked = 97 ∷ 98 ∷ 0 ∷ 109 ∷ []

abbrev frags : List (List ℕ)
frags = fragment plain asking asked 0 ∷ fragment plain asking asked 3 ∷ []

frags_packed : pack plain asking (message method input) ≡ some frags
unfolding pack pack_loop message
frags_packed = refl

abbrev arrived : List (List ℕ)
arrived = fragment plain asking asked 3 ∷ fragment plain asking asked 0 ∷ []

arrived-Among : All (Among frags) arrived
arrived-Among = (inr (inl refl), (inl refl, tt))

frags-Among : All (Among arrived) frags
frags-Among = (inr (inl refl), (inl refl, tt))

method_nonzero : All (λ c. c ≢ 0) method
method_nonzero = (ground arith, tt)

only_key : Keystore.find 0 store ≡ key ∷ []
unfolding Keystore.find find_under
only_key = refl

handled : has_handler method (method ∷ []) ≡ true
unfolding has_handler same_text
handled = refl

short : length (message method input) ≤ 65536
unfolding message
short = omega arith

abbrev k : OperationKey
k = record { key_fingerprint = 0; request_id = 5 }

method_of-message_example :
    (method_of (message method input) (length (message method input)) ≡ method)
    × (request_of (message method input) (length (message method input)) ≡ input)
method_of-message_example = method_of-message method input method_nonzero

request-any_order_example :
    let effects =
      (unpack_all plain runs (method ∷ []) store (new_operation plain runs 7 k) arrived).1 in
    (effects ≡ []) ⊎ (effects ≡ call method input key ∷ [])
request-any_order_example =
    request-any_order plain runs (method ∷ []) store asking method input frags arrived 7 k refl
      asking-IsProper only_key method_nonzero handled short frags_packed arrived-Among

request-each_arrived_example :
    (unpack_all plain runs (method ∷ []) store (new_operation plain runs 7 k) arrived).1
    ≡ call method input key ∷ []
request-each_arrived_example =
    request-each_arrived plain runs (method ∷ []) store asking method input frags arrived 7 k refl
      asking-IsProper only_key method_nonzero handled short frags_packed arrived-Among frags-Among
