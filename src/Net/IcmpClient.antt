-- ===== src/Net/IcmpClient.antt =====
-- net/icmp-client.h and net/icmp-client.cc: echo requests and their replies.
-- An operation lives while something refers to it, and is in the map as long as it lives; its
-- sequence number stands for the pointer. An endpoint is a number, and so is a callback. What a
-- callback itself calls is taken as a later call. `none` is what C++ leaves undefined.
pub mod Checksum
mod Steps
mod Operations
pub mod Alive
pub mod Counts
pub mod Echo
mod Tests
use trunk.Prelude.{
  ℕ, zero, suc, ◌+◌, ◌-◌, ◌*◌, ◌/◌, ◌%◌, ◌^◌, List, [], ◌∷◌, ◌++◌, Option, none, some, Bool, true,
  false, not, ◌||◌, ◌==◌, ltb, if◌then◌else◌, length, take, drop, get_elem?, bit_and, bit_or,
}
use trunk.Prelude.Result.{Errc, timed_out, operation_canceled, no_buffer_space}

pub record IcmpHeader : Type 0 where
  pub type : ℕ
  pub code : ℕ
  pub checksum : ℕ
  pub identifier : ℕ
  pub sequence_number : ℕ

abbrev pub echo_reply : ℕ
echo_reply = 0

abbrev pub echo_request : ℕ
echo_request = 8

-- Two bytes, the high one first.
unfoldable pub word : ℕ → ℕ → ℕ
word high low = bit_or (high * 2 ^ 8) low

-- The loop over the buffer, and the byte that may be left.
unfoldable pub add_words : List ℕ → ℕ → ℕ
add_words [] sum = sum
add_words (b ∷ []) sum = (sum + b * 2 ^ 8) % 2 ^ 32
add_words (b ∷ c ∷ buffer) sum = add_words buffer ((sum + word b c) % 2 ^ 32)

unfoldable pub fold_sum : ℕ → ℕ
fold_sum sum = (sum / 2 ^ 16 + bit_and sum 0xffff) % 2 ^ 32

unfoldable pub compute_checksum : List ℕ → IcmpHeader → IcmpHeader
compute_checksum buffer header =
    let sum = word header.type header.code in
    let sum = (sum + header.identifier) % 2 ^ 32 in
    let sum = (sum + header.sequence_number) % 2 ^ 32 in
    let sum = add_words buffer sum in
    let sum = fold_sum sum in
    let sum = (sum + sum / 2 ^ 16) % 2 ^ 32 in
    record header { checksum = (2 ^ 32 - 1 - sum) % 2 ^ 16 }

-- The bytes of a header.
abbrev pub big_uint16 : ℕ → List ℕ
big_uint16 n = n / 2 ^ 8 ∷ n % 2 ^ 8 ∷ []

unfoldable pub header_bytes : IcmpHeader → List ℕ
header_bytes h =
    h.type ∷ h.code ∷ big_uint16 h.checksum
    ++ (big_uint16 h.identifier ++ big_uint16 h.sequence_number)

pub record Operation : Type 0 where
  pub endpoint : ℕ
  pub sequence_number : ℕ
  pub callback : ℕ
  -- whether the callback has been called
  pub called : Bool
  -- whether `timer_` is scheduled
  pub timer : Bool
  -- whether the handler of its send has still to run
  pub sending : Bool
  -- the references that are held on to it
  pub refs : ℕ

pub record IcmpClient : Type 0 where
  pub identifier : ℕ
  pub next_sequence_number : ℕ
  -- whether a receive is under way
  pub receiving : Bool
  pub receive_buffer_size : ℕ
  pub operations : List Operation

pub data Effect : Type 0 where
  call_back : ℕ → Option Errc → List ℕ → Effect
  async_send_to : ℕ → List ℕ → Effect

unfoldable pub receive : IcmpClient → IcmpClient
receive s = record s { receiving = true }

unfoldable pub new_client : ℕ → ℕ → IcmpClient
new_client pid receive_buffer_size = receive (record {
  identifier = pid % 2 ^ 16;
  next_sequence_number = 0;
  receiving = false;
  receive_buffer_size = receive_buffer_size;
  operations = [];
})

-- `operations_.find`
unfoldable pub find : ℕ → List Operation → Option Operation
find n [] = none
find n (o ∷ os) = if o.sequence_number == n then some o else find n os

-- An operation that nothing refers to is destroyed, and leaves the map.
unfoldable pub put_back : ℕ → Operation → List Operation → List Operation
put_back zero o os = os
put_back (suc refs) o os = o ∷ os

-- An operation changed.
unfoldable pub update : Operation → List Operation → List Operation
update o' [] = []
update o' (o ∷ os) =
    let rest = update o' os in
    if o.sequence_number == o'.sequence_number then put_back o'.refs o' os else o ∷ rest

-- `intrusive_ptr_release`
unfoldable pub release : Operation → Operation
release o = record o { refs = o.refs - 1 }

-- `finish`, whose callback may be called once.
unfoldable pub finish :
    Option Errc → List ℕ → Operation → IcmpClient → Option (IcmpClient × List Effect)
finish ec data' o s =
    if o.called
    then none
    else some (
      record s { operations = update (release (record o { called = true })) s.operations },
      call_back o.callback ec data' ∷ [],
    )

-- The packet of an operation's request.
unfoldable pub packet : ℕ → ℕ → List ℕ → List ℕ
packet identifier sequence_number buffer =
    header_bytes (
      compute_checksum buffer (record {
        type = echo_request;
        code = 0;
        checksum = 0;
        identifier = identifier;
        sequence_number = sequence_number;
      }))
    ++ buffer

-- `request`, with the operation's `start`: the handler of the send refers to the operation, and so
-- does the operation itself until it finishes.
unfoldable pub request : IcmpClient → ℕ → List ℕ → ℕ → IcmpClient × List Effect
request s endpoint buffer callback = elim (find s.next_sequence_number s.operations) [
  | some o ↦ (s, call_back callback (some no_buffer_space) [] ∷ [])
  | none ↦
      let n = s.next_sequence_number in
      let o : Operation = record {
        endpoint = endpoint;
        sequence_number = n;
        callback = callback;
        called = false;
        timer = true;
        sending = true;
        refs = 2;
      } in
      (
        record s { next_sequence_number = (n + 1) % 2 ^ 16; operations = o ∷ s.operations },
        async_send_to endpoint (packet s.identifier n buffer) ∷ [],
      )
]

-- The handler of the send: it lets the operation go.
unfoldable pub sent : Operation → IcmpClient → IcmpClient
sent o s = record s { operations = update (release (record o { sending = false })) s.operations }

-- The timer's callback.
unfoldable pub expire : Operation → IcmpClient → Option (IcmpClient × List Effect)
expire o s = finish (some timed_out) [] (record o { timer = false }) s

-- The packet behind a header of 20 bytes of IP: the operation it is for, and its bytes.
unfoldable pub match_reply : List ℕ → IcmpClient → Option (Operation × List ℕ)
match_reply (type ∷ code ∷ c1 ∷ c2 ∷ i1 ∷ i2 ∷ n1 ∷ n2 ∷ buffer) s =
    if not (type == echo_reply) || not (word i1 i2 == s.identifier)
    then none
    else elim (find (word n1 n2) s.operations) [ none ↦ none | some o ↦ some (o, buffer) ]
match_reply _ s = none

-- The handler of `receive`, for a datagram, of which the receive buffer takes what it has room for.
unfoldable pub received : Option Errc → List ℕ → IcmpClient → Option (IcmpClient × List Effect)
received (some operation_canceled) buffer s = some (record s { receiving = false }, [])
received (some _) buffer s = some (receive s, [])
received none buffer s = elim (match_reply (drop 20 (take s.receive_buffer_size buffer)) s) [
  | none ↦ some (receive s, [])
  | some (o, data') ↦ elim (finish none data' o s) [
    | none ↦ none
    | some (s', effects) ↦ some (receive s', effects)
  ]
]
