-- ===== src/Net/Rpc/Client/Tests.antt =====
-- Runs of the client, and its theorems at a concrete response.
use trunk.Prelude.{
  ℕ, ◌≡◌, ◌^◌, get_elem?, replicate, length-replicate, refl, List, [], ◌∷◌, none, some, true, false,
  arith, inl, inr, All,
}
use trunk.Prelude.Result.{timed_out, bad_address}
use trunk.Security.Plain.{plain}
use trunk.Security.Key.{encrypt, decrypt}
use trunk.Util.FibonacciSequence.{reset, next}
use trunk.Net.Rpc.Wire.{to_bytes, from_bytes, body, is_partial, nonce}
use trunk.Net.Rpc.Fragments.{Sending, fragment, pack_loop, pack}
use trunk.Net.Rpc.Fragments.Cut.{IsProper}
use trunk.Net.Rpc.Fragments.Wrap.{text_at, pack_wraps}
use trunk.Net.Rpc.Fragments.Among.{Among}
use trunk.Net.Rpc.Assembly.{new_assembly, write, mark, is_complete}
use trunk.Net.Rpc.Assembly.Runs.{runs}
use trunk.Net.Rpc.Client.{Operation, abort, send, settle, unpacked, unpack, outcome}
use trunk.Net.Rpc.Client.Receive.{unpack_all}
use trunk.Net.Rpc.Client.AnyOrder.{IsFresh, response-any_order, response-each_arrived}
use trunk.Net.Rpc.Client.Retry.{sum, ended_or, unanswered, unanswered_ends}

abbrev waiting : Operation plain runs
waiting = record {
  endpoint = 1;
  options = record { key = 1 ∷ 2 ∷ []; timeout = 10; initial_retry = 2 };
  request_id = 5;
  request_buffers = (7 ∷ []) ∷ [];
  wait_sequence = reset;
  finished = false;
  result_ec = some bad_address;
  response = new_assembly runs;
}

abbrev reply : Sending
reply = record {
  key = 1 ∷ 2 ∷ [];
  key_fingerprint = 0;
  request_id = 5;
  direction = 1;
  fragment_size = 3;
}

reply-IsProper : IsProper reply
reply-IsProper = record {
  request_id_fits = omega arith;
  key_fingerprint_fits = omega arith;
  some_size = omega arith;
}

abbrev words : List ℕ
words = 10 ∷ 20 ∷ 30 ∷ 40 ∷ 50 ∷ []

-- Two fragments.
abbrev frags : List (List ℕ)
frags = fragment plain reply words 0 ∷ fragment plain reply words 3 ∷ []

frags_packed : pack plain reply words ≡ some frags
unfolding pack pack_loop
frags_packed = refl

-- The second comes first, and once more in the end.
abbrev arrived : List (List ℕ)
arrived =
    fragment plain reply words 3 ∷ fragment plain reply words 0 ∷ fragment plain reply words 3 ∷ []

waiting-IsFresh : IsFresh plain runs reply waiting
waiting-IsFresh = record { keyed = refl; unfinished = refl; nothing_yet = refl }

arrived-Among : All (Among frags) arrived
arrived-Among = (inr (inl refl), (inl refl, (inr (inl refl), tt)))

frags-Among : All (Among arrived) frags
frags-Among = (inr (inl refl), (inl refl, tt))

arrived_done : (unpack_all plain runs waiting arrived).finished ≡ true
unfolding unpack_all unpack unpacked settle decrypt encrypt fragment to_bytes from_bytes is_partial
    nonce new_assembly write mark is_complete
arrived_done = refl

response-any_order_example :
    outcome plain runs (unpack_all plain runs waiting arrived) ≡ (none, words)
response-any_order_example =
    response-any_order plain runs reply words frags arrived waiting refl reply-IsProper
      (omega arith) frags_packed waiting-IsFresh arrived-Among arrived_done

response-each_arrived_example :
    ((unpack_all plain runs waiting arrived).finished ≡ true)
    × (outcome plain runs (unpack_all plain runs waiting arrived) ≡ (none, words))
response-each_arrived_example =
    response-each_arrived plain runs reply words frags arrived waiting refl reply-IsProper
      (omega arith) frags_packed waiting-IsFresh arrived-Among frags-Among

-- Ten nanoseconds are waited for in pieces of 2, 2, 4 and the 2 that are left.
waiting_waits :
    (unanswered plain runs 11 waiting)
    ≡ some (
      2 ∷ 2 ∷ 4 ∷ 2 ∷ [],
      record waiting {
        options = record { key = 1 ∷ 2 ∷ []; timeout = 0; initial_retry = 2 };
        wait_sequence = record { a = 5; b = 8 };
        finished = true;
        result_ec = some timed_out;
      },
    )
unfolding unanswered ended_or send abort reset next
waiting_waits = refl

unanswered_ends_example :
    (ws : List ℕ) × (o' : Operation plain runs) × (unanswered plain runs 45 waiting ≡ some (ws, o'))
    × (sum ws ≡ 10)
    × (o'.finished ≡ true)
    × (o'.result_ec ≡ some timed_out)
unfolding reset
unanswered_ends_example =
    unanswered_ends plain runs 45 waiting refl refl (omega arith) (omega arith) (omega arith)

-- The 44th pair has no next one among the values of an `int`.
next_44 : next (2 ^ 31) (record { a = 1134903170; b = 1836311903 }) ≡ none
unfolding next
next_44 = refl

-- A message of one byte more than 2^16, in fragments of 2^16 bytes.
abbrev long_sending : Sending
long_sending = record {
  key = 1 ∷ 2 ∷ [];
  key_fingerprint = 0;
  request_id = 5;
  direction = 0;
  fragment_size = 65536;
}

abbrev long_message : List ℕ
long_message = replicate 65537 7

pack_wraps_example :
    (fs : List (List ℕ)) × (d : List ℕ) × (d' : List ℕ) × (pack plain long_sending long_message
      ≡ some fs)
    × (get_elem? fs 0 ≡ some d)
    × (get_elem? fs 1 ≡ some d')
    × ((from_bytes d').offset ≡ (from_bytes d).offset)
    × (body d
        ≡ encrypt plain (1 ∷ 2 ∷ []) (nonce 5 0 0) (text_at plain long_sending long_message 0))
    × (body d'
        ≡ encrypt plain (1 ∷ 2 ∷ []) (nonce 5 0 0) (text_at plain long_sending long_message 65536))
pack_wraps_example =
    pack_wraps plain long_sending long_message 0 1 (omega arith) (omega arith) refl
      (omega (arith, length-replicate {A = ℕ} 65537 7))
