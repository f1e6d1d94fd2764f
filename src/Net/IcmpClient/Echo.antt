-- ===== src/Net/IcmpClient/Echo.antt =====
-- A request and its reply.
use trunk.Prelude.{
  ap₂, ◌≤◌, ◌-◌, suc, take, drop-take, ℕ, ◌+◌, ◌/◌, ◌%◌, ◌^◌, ◌≡◌, refl, ap, List, [], ◌∷◌, ◌++◌,
  none, some, true, false, ◌==◌, ==_iff, length, drop, drop-append_ge, ◌∙◌, arith,
}
use trunk.Net.IcmpClient.{
  IcmpClient, Operation, echo_reply, word, find, update, put_back, release, finish, request, sent,
  receive, match_reply, received, Effect, call_back,
}
use trunk.Net.IcmpClient.Checksum.{word_lem}

-- The operation of a request.
abbrev pub operation : ℕ → ℕ → ℕ → Operation
operation endpoint n callback = record {
  endpoint = endpoint;
  sequence_number = n;
  callback = callback;
  called = false;
  timer = true;
  sending = true;
  refs = 2;
}

-- What comes back: a header of IP, then the reply to the header of the request with the same buffer.
abbrev pub reply : List ℕ → ℕ → ℕ → ℕ → ℕ → ℕ → List ℕ → List ℕ
reply ip code c1 c2 identifier n buffer =
    ip
    ++ (echo_reply
        ∷ code
        ∷ c1
        ∷ c2
        ∷ identifier / 2 ^ 8
        ∷ identifier % 2 ^ 8
        ∷ n / 2 ^ 8
        ∷ n % 2 ^ 8
        ∷ buffer)

same : (n : ℕ) → (n == n) ≡ true
same n = (==_iff n n).1 refl

words : (n : ℕ) → word (n / 2 ^ 8) (n % 2 ^ 8) ≡ n
words n = omega (arith, word_lem (n / 256) (n % 256) (omega arith))

-- The same once its send has ended.
abbrev on_its_way : ℕ → ℕ → ℕ → Operation
on_its_way endpoint n callback = record (operation endpoint n callback) {
  sending = false;
  refs = 1;
}

abbrev after : IcmpClient → Operation → IcmpClient
after s o = record s {
  next_sequence_number = (s.next_sequence_number + 1) % 2 ^ 16;
  operations = o ∷ s.operations;
}

request-free :
    (s : IcmpClient) (endpoint callback : ℕ) (buffer : List ℕ)
    → find s.next_sequence_number s.operations ≡ none
    → (request s endpoint buffer callback).0
      ≡ after s (operation endpoint s.next_sequence_number callback)
unfolding request
request-free s endpoint callback buffer free = ground (arith, free)

received-matched :
    (s s' : IcmpClient) (buffer found : List ℕ) (o : Operation) (effects : List Effect)
    → match_reply (drop 20 (take s.receive_buffer_size buffer)) s ≡ some (o, found)
    → finish none found o s ≡ some (s', effects)
    → received none buffer s ≡ some (receive s', effects)
unfolding received
received-matched s s' buffer found o effects e e' = ground (arith, e, e')

sent-after :
    (s : IcmpClient) (endpoint n callback : ℕ)
    → sent (operation endpoint n callback) (after s (operation endpoint n callback))
      ≡ after s (on_its_way endpoint n callback)
unfolding sent update put_back release
sent-after s endpoint n callback = rw (same n) refl

finish-after :
    (s : IcmpClient) (endpoint n callback : ℕ) (buffer : List ℕ)
    → finish none buffer (on_its_way endpoint n callback) (after s (on_its_way endpoint n callback))
      ≡ some (
        record s { next_sequence_number = (s.next_sequence_number + 1) % 2 ^ 16 },
        call_back callback none buffer ∷ [],
      )
unfolding finish update put_back release
finish-after s endpoint n callback buffer = rw (same n) refl

match_reply-after :
    (s : IcmpClient) (endpoint n callback code c1 c2 : ℕ) (buffer : List ℕ)
    → match_reply
        (echo_reply
          ∷ code
          ∷ c1
          ∷ c2
          ∷ s.identifier / 2 ^ 8
          ∷ s.identifier % 2 ^ 8
          ∷ n / 2 ^ 8
          ∷ n % 2 ^ 8
          ∷ buffer)
        (after s (on_its_way endpoint n callback))
      ≡ some (on_its_way endpoint n callback, buffer)
unfolding match_reply find
match_reply-after s endpoint n callback code c1 c2 buffer =
    rw (words s.identifier, words n, same n, same s.identifier) refl

-- What the receive buffer keeps of a reply behind the header of IP.
received_part :
    (size code c1 c2 identifier n : ℕ) (buffer ip : List ℕ)
    → length ip ≡ 20
    → 28 ≤ size
    → drop 20 (take size (reply ip code c1 c2 identifier n buffer))
      ≡ echo_reply
        ∷ code
        ∷ c1
        ∷ c2
        ∷ identifier / 2 ^ 8
        ∷ identifier % 2 ^ 8
        ∷ n / 2 ^ 8
        ∷ n % 2 ^ 8
        ∷ take (size - 28) buffer
received_part size code c1 c2 identifier n buffer ip long h =
    drop-take 20 size (reply ip code c1 c2 identifier n buffer)
    ∙ ap₂ take room (drop-append_ge 20 0 ip _ (omega arith))
  where
    room : size - 20 ≡ suc (suc (suc (suc (suc (suc (suc (suc (size - 28))))))))
    room = omega arith

-- A request under a sequence number that is free, its send, and the reply of an echo with the same
-- identifier, sequence number and buffer, whatever its code and checksum, to a client whose receive
-- buffer has room for 28 bytes of headers: the callback gets the buffer, up to the bytes that the
-- receive buffer has room for behind the headers, without an error; no operation is left of the
-- request, and the client receives again.
pub received-request :
    (s : IcmpClient) (endpoint callback code c1 c2 : ℕ) (buffer ip : List ℕ)
    → find s.next_sequence_number s.operations ≡ none
    → length ip ≡ 20
    → 28 ≤ s.receive_buffer_size
    → received none (reply ip code c1 c2 s.identifier s.next_sequence_number buffer) (
        sent
          (operation endpoint s.next_sequence_number callback)
          (request s endpoint buffer callback).0)
      ≡ some (
        record s { next_sequence_number = (s.next_sequence_number + 1) % 2 ^ 16; receiving = true },
        call_back callback none (take (s.receive_buffer_size - 28) buffer) ∷ [],
      )
unfolding receive
received-request s endpoint callback code c1 c2 buffer ip free long room =
    let n : ℕ = s.next_sequence_number in
    let o : Operation = on_its_way endpoint n callback in
    let kept : List ℕ = take (s.receive_buffer_size - 28) buffer in
    let now =
      ap (sent (operation endpoint n callback)) (request-free s endpoint callback buffer free)
      ∙ sent-after s endpoint n callback in
    ap (received none _) now
    ∙ received-matched (after s o) _ _ kept o _
        (ap (λ bytes. match_reply bytes (after s o))
            (received_part s.receive_buffer_size code c1 c2 s.identifier n buffer ip long room)
          ∙ match_reply-after s endpoint n callback code c1 c2 kept)
        (finish-after s endpoint n callback kept)
