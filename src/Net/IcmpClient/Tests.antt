-- ===== src/Net/IcmpClient/Tests.antt =====
-- A request of two bytes, and its reply.
use trunk.Prelude.{count, ℕ, ◌+◌, ◌%◌, ◌≡◌, refl, List, [], ◌∷◌, ◌++◌, none, some, true, arith}
use trunk.Prelude.Result.{timed_out}
use trunk.Net.IcmpClient.{
  IcmpClient, Effect, call_back, find, request, sent, received, receive, expire, packet,
  header_bytes, compute_checksum, add_words, fold_sum, word, new_client,
}
use trunk.Net.IcmpClient.Steps.{Runs, start, requested}
use trunk.Net.IcmpClient.Checksum.{words_sum, words_sum-packet}
use trunk.Net.IcmpClient.Echo.{operation, reply, received-request}
use trunk.Net.IcmpClient.Alive.{Runs-expire}
use trunk.Net.IcmpClient.Counts.{calls, waiting, Runs-waiting}

ping : packet 0x1234 1 (1 ∷ 2 ∷ 3 ∷ []) ≡ 8 ∷ 0 ∷ 0xe1 ∷ 0xc8 ∷ 0x12 ∷ 0x34 ∷ 0 ∷ 1 ∷ 1 ∷ 2 ∷ 3 ∷ []
unfolding packet header_bytes compute_checksum add_words fold_sum word
ping = refl

words_sum-packet_example : words_sum (packet 0x1234 1 (1 ∷ 2 ∷ 3 ∷ [])) % 65535 ≡ 0
words_sum-packet_example =
    words_sum-packet 0x1234 1 (1 ∷ 2 ∷ 3 ∷ []) (omega arith) (omega arith)
      (omega arith, (omega arith, (omega arith, tt))) (omega arith)

abbrev idle : IcmpClient
idle = record {
  identifier = 0x1234;
  next_sequence_number = 1;
  receiving = true;
  receive_buffer_size = 30;
  operations = [];
}

abbrev ip : List ℕ
ip = 69 ∷ 0 ∷ 0 ∷ 31 ∷ 0 ∷ 0 ∷ 0 ∷ 0 ∷ 64 ∷ 1 ∷ 0 ∷ 0 ∷ 10 ∷ 0 ∷ 0 ∷ 2 ∷ 10 ∷ 0 ∷ 0 ∷ 1 ∷ []

received-request_example :
    received none
      (reply ip 0 0xe9 0xc8 0x1234 1 (1 ∷ 2 ∷ 3 ∷ []))
      (sent (operation 4 1 7) (request idle 4 (1 ∷ 2 ∷ 3 ∷ []) 7).0)
    ≡ some (record idle { next_sequence_number = 2 }, call_back 7 none (1 ∷ 2 ∷ []) ∷ [])
unfolding find
received-request_example =
    received-request idle 4 7 0 0xe9 0xc8 (1 ∷ 2 ∷ 3 ∷ []) ip refl refl (omega arith)

abbrev begun : IcmpClient
begun = record {
  identifier = 0x1234;
  next_sequence_number = 0;
  receiving = true;
  receive_buffer_size = 30;
  operations = [];
}

abbrev asked : IcmpClient × List Effect
asked = request begun 4 [] 7

asks : Runs asked.0 (7 ∷ []) (asked.1 ++ [])
unfolding new_client receive
asks = requested begun 4 [] 7 [] [] (start 0x1234 30)

Runs-expire_example :
    (true ≡ true)
    × ((s' : IcmpClient) × (expire (operation 4 0 7) asked.0
          ≡ some (s', call_back 7 (some timed_out) [] ∷ [])))
unfolding request find
Runs-expire_example =
    Runs-expire asked.0 (7 ∷ []) (asked.1 ++ []) 0 (operation 4 0 7) asks refl refl

Runs-waiting_example : calls 7 (asked.1 ++ []) + waiting 7 (asked.0.operations) ≡ count 7 (7 ∷ [])
Runs-waiting_example = Runs-waiting 7 asks
