-- ===== src/Net/Rpc/RoundTrip/Tests.antt =====
-- A call at a concrete request and response.
use trunk.Prelude.{
  ℕ, ◌≤◌, ◌≡◌, ◌≢◌, refl, List, [], ◌∷◌, none, some, true, false, length, arith, inl, inr, All,
}
use trunk.Prelude.Result.{bad_address}
use trunk.Security.Plain.{plain}
use trunk.Security.Key.{fingerprint}
use trunk.Security.Keystore
use trunk.Security.Keystore.{Keystore, find_under}
use trunk.Util.FibonacciSequence.{reset}
use trunk.Net.Rpc.Fragments.{Sending, fragment, pack_loop, pack}
use trunk.Net.Rpc.Fragments.Among.{Among}
use trunk.Net.Rpc.Assembly.{new_assembly}
use trunk.Net.Rpc.Assembly.Runs.{runs}
use trunk.Net.Rpc.Client
use trunk.Net.Rpc.Client.{RequestOptions, message, outcome}
use trunk.Net.Rpc.Client.Receive
use trunk.Net.Rpc.Server
use trunk.Net.Rpc.Server.{send_to, call, same_text, has_handler, pack_response, respond}
use trunk.Net.Rpc.Server.AnyOrder
use trunk.Net.Rpc.OperationKey.{OperationKey}
use trunk.Net.Rpc.RoundTrip.{asking, call_ends}

abbrev options : RequestOptions
options = record { key = 1 ∷ 2 ∷ []; timeout = 10; initial_retry = 2 }

-- "ab", of a method "m"; in two fragments.
abbrev method : List ℕ
method = 109 ∷ []

abbrev input : List ℕ
input = 97 ∷ 98 ∷ []

abbrev asked : List ℕ
asked = 97 ∷ 98 ∷ 0 ∷ 109 ∷ []

abbrev asked_frags : List (List ℕ)
asked_frags =
    fragment plain (asking plain options 5 3) asked 0
    ∷ fragment plain (asking plain options 5 3) asked 3
    ∷ []

abbrev there : List (List ℕ)
there =
    fragment plain (asking plain options 5 3) asked 3
    ∷ fragment plain (asking plain options 5 3) asked 0
    ∷ []

abbrev asker : Client.Operation plain runs
asker = record {
  endpoint = 7;
  options = options;
  request_id = 5;
  request_buffers = asked_frags;
  wait_sequence = reset;
  finished = false;
  result_ec = some bad_address;
  response = new_assembly runs;
}

asker_made : Client.new_operation plain runs 3 7 (message method input) options 5 ≡ some asker
unfolding Client.new_operation message pack pack_loop
asker_made = refl

abbrev k : OperationKey
k = record { key_fingerprint = fingerprint plain options.key; request_id = 5 }

abbrev words : List ℕ
words = 10 ∷ 20 ∷ 30 ∷ []

abbrev reply : Sending
reply = record {
  key = options.key;
  key_fingerprint = fingerprint plain options.key;
  request_id = 5;
  direction = 1;
  fragment_size = 2;
}

abbrev back : List (List ℕ)
back = fragment plain reply words 0 ∷ fragment plain reply words 2 ∷ []

abbrev answerer : Server.Operation plain runs
answerer = Server.new_operation plain runs 9 k

abbrev answered : Server.Operation plain runs
answered = record answerer { response_buffers = back }

answered_packed :
    pack_response plain runs 2 answerer options.key words
    ≡ some (answered, respond plain runs answered)
unfolding pack_response Server.new_operation pack pack_loop
answered_packed = refl

only_key :
    Keystore.find (fingerprint plain options.key) ((0, options.key ∷ []) ∷ []) ≡ options.key ∷ []
unfolding Keystore.find find_under fingerprint
only_key = refl

handled : has_handler method (method ∷ []) ≡ true
unfolding has_handler same_text
handled = refl

short_request : length (message method input) ≤ 65536
unfolding message
short_request = omega arith

there-Among : All (Among asked_frags) there
there-Among = (inr (inl refl), (inl refl, tt))

asked_frags-Among : All (Among there) asked_frags
asked_frags-Among = (inr (inl refl), (inl refl, tt))

back-Among : All (Among back) back
back-Among = (inl refl, (inr (inl refl), tt))

nonzero : All (λ c. c ≢ 0) method
nonzero = (ground arith, tt)

answerer_named : answerer.key_fingerprint ≡ fingerprint plain options.key
unfolding Server.new_operation
answerer_named = refl

answerer_numbered : answerer.request_id ≡ 5
unfolding Server.new_operation
answerer_numbered = refl

answerer_new : answerer.response_buffers ≡ []
unfolding Server.new_operation
answerer_new = refl

call_ends_example :
    (waiting : Client.Operation plain runs) × (effects : List Client.Effect) × (Client.send plain
        runs 0 asker
      ≡ some (waiting, effects))
    × ((AnyOrder.unpack_all plain runs
          (method ∷ [])
          ((0, options.key ∷ []) ∷ [])
          (Server.new_operation plain runs 9 k)
          there).1
        ≡ call method input options.key ∷ [])
    × (outcome plain runs (Receive.unpack_all plain runs waiting back) ≡ (none, words))
call_ends_example =
    call_ends plain runs 3 2 5 7 0 9 options (method ∷ []) ((0, options.key ∷ []) ∷ []) method input
      words asker answerer answered (respond plain runs answered) there back (omega arith)
      (omega arith) (omega arith) (omega arith) (omega arith) short_request (omega arith) nonzero
      handled only_key asker_made there-Among asked_frags-Among answerer_named answerer_numbered
      answerer_new answered_packed back-Among back-Among
