-- ===== src/Net/Rpc/Server/Method.antt =====
-- The method and the request that a server finds in a message.
use trunk.Prelude.{
  ℕ, zero, suc, ◌+◌, ◌-◌, ◌≤◌, ◌<◌, ◌≡◌, ◌≢◌, refl, ap, ap₂, sym, ◌∙◌, List, [], ◌∷◌, ◌++◌, false,
  ◌==◌, if◌then◌else◌, if_true, if_false, take, drop, length, All, drop-append_ge, drop-drop,
  take-append_le, take_all, length-append, arith,
}
use trunk.Net.Rpc.Client.{message}
use trunk.Net.Rpc.Server.{first, back_to_zero, method_of, request_of}

-- The loop reads the bytes in front of its start only.
first-drop-take :
    (n j : ℕ) (bytes : List ℕ) → j < n → first (drop j (take n bytes)) ≡ first (drop j bytes)
first-drop-take zero j bytes h = absurd (omega arith)
first-drop-take (suc n) j [] h = refl
first-drop-take (suc n) zero (b ∷ bytes) h = refl
first-drop-take (suc n) (suc j) (b ∷ bytes) h = first-drop-take n j bytes (omega arith)

pub back_to_zero-take :
    (n k : ℕ) (bytes : List ℕ) → k ≤ n → back_to_zero (take n bytes) k ≡ back_to_zero bytes k
unfolding back_to_zero
back_to_zero-take n zero bytes h = refl
back_to_zero-take n (suc k) bytes h =
    ap₂ (λ b r. if b == 0 then suc k else r) (first-drop-take n k bytes (omega arith))
      (back_to_zero-take n k bytes (omega arith))

pub back_to_zero-le : (bytes : List ℕ) (k : ℕ) → back_to_zero bytes k ≤ k
unfolding back_to_zero
back_to_zero-le bytes zero = omega arith
back_to_zero-le bytes (suc k) = ground (arith, back_to_zero-le bytes k)

-- Over bytes that are not zero the loop goes on.
back_over :
    (bytes cs : List ℕ) (k : ℕ)
    → drop k bytes ≡ cs
    → All (λ c. c ≢ 0) cs
    → back_to_zero bytes (k + length cs) ≡ back_to_zero bytes k
unfolding back_to_zero
back_over bytes [] k e all = ap (back_to_zero bytes) (zero_more k)
  where
    zero_more : (k : ℕ) → k + 0 ≡ k
    zero_more k = omega arith
back_over bytes (c ∷ cs) k e (h, all) =
    let one_more : suc k ≡ k + 1 = omega arith in
    let across : k + length (c ∷ cs) ≡ suc k + length cs = omega arith in
    let next : drop (suc k) bytes ≡ cs =
      ap (λ n. drop n bytes) one_more ∙ sym (drop-drop 1 k bytes) ∙ ap (λ t. drop 1 t) e in
    let nonzero : (first (drop k bytes) == 0) ≡ false = ap (λ t. first t == 0) e ∙ ground arith in
    ap (back_to_zero bytes) across
    ∙ back_over bytes cs (suc k) next all
    ∙ if_false _ (suc k) (back_to_zero bytes k) nonzero

-- At a zero it stops.
back_at :
    (bytes rest : List ℕ) (k : ℕ) → drop k bytes ≡ 0 ∷ rest → back_to_zero bytes (suc k) ≡ suc k
unfolding back_to_zero
back_at bytes rest k e = if_true _ (suc k) (back_to_zero bytes k) (ap (λ t. first t == 0) e)

-- Where the loop stops in a message of a request that is not empty.
back_to_zero-message :
    (input method : List ℕ)
    → All (λ c. c ≢ 0) method
    → back_to_zero (input ++ (0 ∷ method)) (length (input ++ (0 ∷ method))) ≡ suc (length input)
back_to_zero-message input method all =
    let bytes : List ℕ = input ++ (0 ∷ method) in
    let n : length bytes ≡ suc (length input) + length method =
      omega (arith, length-append input (0 ∷ method)) in
    ap (back_to_zero bytes) n
    ∙ back_over bytes method (suc (length input))
        (drop-append_ge (suc (length input)) 1 input (0 ∷ method) (omega arith)) all
    ∙ back_at bytes method (length input)
        (drop-append_ge (length input) 0 input (0 ∷ method) (omega arith))

-- The request and the method that a client has put together are found again, if no byte of the
-- method is zero.
pub method_of-message :
    (method input : List ℕ)
    → All (λ c. c ≢ 0) method
    → (method_of (message method input) (length (message method input)) ≡ method)
      × (request_of (message method input) (length (message method input)) ≡ input)
unfolding method_of request_of message back_to_zero
method_of-message method [] all =
    let from_zero : length method ≡ 0 + length method = omega arith in
    let none_found : back_to_zero method (length method) ≡ 0 =
      ap (back_to_zero method) from_zero ∙ back_over method method 0 refl all ∙ at_start in
    (
      ap (λ k. drop k (take (length method) method)) none_found
          ∙ take_all (length method) method (omega arith),
      ap (λ k. take (k - 1) method) none_found,
    )
  where
    at_start : back_to_zero method 0 ≡ 0
    at_start = refl
method_of-message method (b ∷ bs) all =
    let input : List ℕ = b ∷ bs in
    let bytes : List ℕ = input ++ (0 ∷ method) in
    let found = back_to_zero-message input method all in
    let one_less : suc (length input) - 1 ≡ length input = omega arith in
    (
      ap₂ (λ k t. drop k t) found (take_all (length bytes) bytes (omega arith))
          ∙ drop-append_ge (suc (length input)) 1 input (0 ∷ method) (omega arith),
      ap (λ k. take (k - 1) bytes) found
          ∙ ap (λ k. take k bytes) one_less
          ∙ take-append_le (length input) input (0 ∷ method) (omega arith)
          ∙ take_all (length input) input (omega arith),
    )
