-- ===== src/Net/IcmpClient/Checksum.antt =====
-- The checksum of a packet.
use trunk.Prelude.{
  ℕ, ◌+◌, ◌*◌, ◌/◌, ◌%◌, ◌^◌, ◌≤◌, ◌<◌, ◌≡◌, refl, ap, List, [], ◌∷◌, length, All, arith,
}
use trunk.Prelude.Bits.{add-bit_or, bit_and-0xffff}
use trunk.Net.IcmpClient.{
  IcmpHeader, word, add_words, fold_sum, compute_checksum, header_bytes, packet,
}

-- The sum of the words of two bytes, the last of which may lack its low byte.
abbrev pub words_sum : List ℕ → ℕ
words_sum [] = 0
words_sum (b ∷ []) = b * 256
words_sum (b ∷ c ∷ buffer) = b * 256 + c + words_sum buffer

pub word_lem : (high low : ℕ) → low < 256 → word high low ≡ high * 256 + low
unfolding word
word_lem high low h = omega (arith, add-bit_or 8 low high (omega arith))

words_sum_le :
    (buffer : List ℕ)
    → All (λ b. b < 256) buffer
    → words_sum buffer * 2 ≤ (length buffer + 1) * 65535
words_sum_le [] all = omega arith
words_sum_le (b ∷ []) (hb, all) = omega arith
words_sum_le (b ∷ c ∷ buffer) (hb, (hc, all)) = omega (arith, words_sum_le buffer all)

add_words_lem :
    (buffer : List ℕ) (sum : ℕ)
    → All (λ b. b < 256) buffer
    → sum + words_sum buffer < 2 ^ 32
    → add_words buffer sum ≡ sum + words_sum buffer
unfolding add_words
add_words_lem [] sum all h = omega arith
add_words_lem (b ∷ []) sum (hb, all) h = omega arith
add_words_lem (b ∷ c ∷ buffer) sum (hb, (hc, all)) h =
    let e : (sum + word b c) % 2 ^ 32 ≡ sum + (b * 256 + c) = omega (arith, word_lem b c hc) in
    rw e (omega (arith, add_words_lem buffer (sum + (b * 256 + c)) all (omega arith)))

-- The two folds keep the sum modulo 65535, and leave less than 65536 of it.
folded :
    (x sum : ℕ)
    → x ≡ fold_sum sum
    → sum < 2 ^ 32
    → ((x + x / 2 ^ 16) % 2 ^ 32 % 65536 % 65535 ≡ sum % 65535)
unfolding fold_sum
folded x sum e h = omega (arith, e, bit_and-0xffff sum)

-- A header's own words, but for the checksum.
abbrev pub header_sum : IcmpHeader → ℕ
header_sum h = h.type * 256 + h.code + h.identifier + h.sequence_number

compute_checksum_lem :
    (buffer : List ℕ) (h : IcmpHeader)
    → All (λ b. b < 256) buffer
    → length buffer < 65536
    → h.type < 256
    → h.code < 256
    → h.identifier < 65536
    → h.sequence_number < 65536
    → ((compute_checksum buffer h).checksum < 65536)
      × ((header_sum h + (compute_checksum buffer h).checksum + words_sum buffer) % 65535 ≡ 0)
unfolding compute_checksum
compute_checksum_lem buffer h all small t c i n =
    (omega arith, omega (arith, folded (fold_sum total) total refl bound, ap fold_sum e, e))
  where
    start : ℕ
    start = ((word h.type h.code + h.identifier) % 2 ^ 32 + h.sequence_number) % 2 ^ 32

    total : ℕ
    total = add_words buffer start

    from : start ≡ header_sum h
    from = omega (arith, word_lem h.type h.code c)

    e : total ≡ header_sum h + words_sum buffer
    e =
        omega (
          arith,
          from,
          add_words_lem buffer start all (omega (arith, from, words_sum_le buffer all)),
        )

    bound : total < 2 ^ 32
    bound = omega (arith, e, words_sum_le buffer all)

words-big : (n : ℕ) → n / 256 * 256 + n % 256 ≡ n
words-big n = omega arith

-- A receiver that adds up all words of the packet of a request, the checksum's with them, finds a
-- multiple of 65535, as RFC 1071 wants: for a buffer of fewer than 65536 bytes, an identifier and a
-- sequence number of 16 bits.
pub words_sum-packet :
    (identifier sequence_number : ℕ) (buffer : List ℕ)
    → identifier < 65536
    → sequence_number < 65536
    → All (λ b. b < 256) buffer
    → length buffer < 65536
    → words_sum (packet identifier sequence_number buffer) % 65535 ≡ 0
unfolding packet header_bytes compute_checksum
words_sum-packet identifier n buffer hi hn all small = omega (arith, sound)
  where
    header : IcmpHeader
    header = record {
      type = 8;
      code = 0;
      checksum = 0;
      identifier = identifier;
      sequence_number = n;
    }

    sound :
        ((compute_checksum buffer header).checksum < 65536)
        × ((header_sum header + (compute_checksum buffer header).checksum + words_sum buffer)
              % 65535
            ≡ 0)
    sound = compute_checksum_lem buffer header all small (omega arith) (omega arith) hi hn
