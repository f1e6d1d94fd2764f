-- ===== src/Net/Rpc/Client/Receive.antt =====
-- The responses that a client puts together, from datagrams in any order, each as often as it comes.
use trunk.Prelude.{
  ℕ, ◌-◌, ◌≤◌, ◌<◌, ◌≡◌, refl, ap, ap₂, subst, sym, ◌∙◌, List, [], ◌∷◌, ◌++◌, none, some, true,
  false, ◌⊎◌, inl, inr, if_true, if_false, Bool-cases, if◌then◌else◌, take, length, replicate,
  append-nil, arith,
}
use trunk.Io.MemoryFile.{resize}
use trunk.Security.Key.{Cipher, encrypt, decrypt}
use trunk.Net.Rpc.Wire.{from_bytes, body, is_partial, nonce}
use trunk.Net.Rpc.Fragments.{Sending}
use trunk.Net.Rpc.Fragments.Cut.{Carries, MarkedBy}
use trunk.Net.Rpc.Assembly.{IntervalSet, Assembly, is_complete, unknown_size}
use trunk.Net.Rpc.Assembly.Holds.{
  Holds, Marked, accept, accept-Holds, accept-Marked, Marked-accept, complete-Holds,
}
use trunk.Net.Rpc.Client.{Operation, settle, unpacked, unpack, outcome}

module _ (cipher : Cipher) (sets : IntervalSet) where
  -- The datagrams that an operation is given, one after the other.
  unfoldable pub unpack_all : Operation cipher sets → List (List ℕ) → Operation cipher sets
  unpack_all o [] = o
  unpack_all o (d ∷ ds) = unpack_all (unpack cipher sets o d) ds

  -- An operation that waits for a message, or has it.
  pub record Receives (sending : Sending) (m : List ℕ) (o : Operation cipher sets) : Type 0 where
    pub keyed : o.options.key ≡ sending.key
    pub holds : Holds sets m o.response
    pub waiting : o.finished ≡ false → is_complete sets o.response ≡ false
    pub done : o.finished ≡ true → outcome cipher sets o ≡ (none, m)

  -- The datagram's part is marked, unless there is no need for it.
  abbrev pub Noted : List ℕ → Operation cipher sets → Type 0
  Noted d o = (o.finished ≡ true) ⊎ MarkedBy sets o.response d

  resize_exact :
      (m bytes : List ℕ) (n : ℕ)
      → n ≡ length m
      → length m ≤ length bytes
      → take n bytes ≡ m
      → resize n bytes ≡ m
  resize_exact m bytes n e h same =
      let none_left : n - length bytes ≡ 0 = omega arith in
      ap (λ k. take n bytes ++ replicate k 0) none_left ∙ append-nil (take n bytes) ∙ same

  response-settle : (o : Operation cipher sets) → (settle cipher sets o).response ≡ o.response
  unfolding settle
  response-settle o =
      elim (is_complete sets o.response)
        as (λ b.
          (if b then record o { finished = true; result_ec = none } else o).response ≡ o.response) [
            | true ↦ refl
            | false ↦ refl
          ]

  module _ (sending : Sending) (from_server : sending.direction ≡ 1) (m : List ℕ)
      (short : length m < unknown_size) where
    settle-Receives :
        (o : Operation cipher sets)
        → o.options.key ≡ sending.key
        → Holds sets m o.response
        → o.finished ≡ false
        → Receives sending m (settle cipher sets o)
    unfolding settle outcome
    settle-Receives o keyed holds fresh = elim (Bool-cases (is_complete sets o.response)) [
      | inl e ↦
          let (size, long, same) = complete-Holds sets m o.response holds short e in
          subst (Receives sending m)
            (sym (ap (λ b. if b then record o { finished = true; result_ec = none } else o) e))
            (record {
              keyed = keyed;
              holds = holds;
              waiting = λ x. cc x;
              done = λ _.
                  ap (λ t. (none, t))
                    (resize_exact m o.response.bytes o.response.size size long same);
            })
      | inr e ↦
          subst (Receives sending m)
            (sym (ap (λ b. if b then record o { finished = true; result_ec = none } else o) e))
            (record { keyed = keyed; holds = holds; waiting = λ _. e; done = λ x. cc (x, fresh) })
    ]

    module _ (o : Operation cipher sets) (d : List ℕ) (c : Carries cipher sending m d)
        (r : Receives sending m o) where
      abbrev accepted : Assembly sets
      accepted =
          accept sets ((from_bytes d).offset) (length (body d)) c.text (is_partial (from_bytes d))
            o.response

      opens :
          decrypt cipher o.options.key
            (nonce ((from_bytes d).request_id) ((from_bytes d).offset) 1)
            (body d)
          ≡ some c.text
      unfolding decrypt encrypt
      opens =
          ap₂ (λ k i. cipher.aead_open k (nonce i ((from_bytes d).offset) 1) (body d)) r.keyed
            c.identity
          ∙ ap (cipher.aead_open sending.key (nonce sending.request_id ((from_bytes d).offset) 1)) (
              c.sealed
              ∙ ap
                  (λ k.
                    encrypt cipher sending.key (nonce sending.request_id ((from_bytes d).offset) k)
                      c.text)
                  from_server)
          ∙ cipher.aead_open-seal _ _ _

      unpack_open :
          o.finished ≡ false
          → unpack cipher sets o d ≡ settle cipher sets (record o { response = accepted })
      unfolding unpack unpacked
      unpack_open fresh =
          if_false o.finished _ _ fresh
          ∙ ap
              (unpacked cipher sets o (from_bytes d) (length (body d)) (
                cipher.aead_refused o.options.key
                  (nonce ((from_bytes d).request_id) ((from_bytes d).offset) 1) (body d)))
              opens

      unpack_closed : o.finished ≡ true → unpack cipher sets o d ≡ o
      unfolding unpack
      unpack_closed done = if_true o.finished _ _ done

      pub unpack-Receives : Receives sending m (unpack cipher sets o d)
      unpack-Receives = elim (Bool-cases o.finished) [
        | inl done ↦ subst (Receives sending m) (sym (unpack_closed done)) r
        | inr fresh ↦ subst (Receives sending m) (sym (unpack_open fresh)) (
            settle-Receives (record o { response = accepted }) r.keyed
              (accept-Holds sets m ((from_bytes d).offset) (length (body d)) c.text
                (is_partial (from_bytes d)) c.part (omega (arith, c.tagged)) o.response r.holds)
              fresh)
      ]

      -- The part of a datagram is noted once it has come, and stays so.
      pub unpack-Noted : Noted d (unpack cipher sets o d)
      unpack-Noted = elim (Bool-cases o.finished) [
        | inl done ↦
            inl (ap (λ (o' : Operation cipher sets). o'.finished) (unpack_closed done) ∙ done)
        | inr fresh ↦ inr (
            subst (λ a. MarkedBy sets a d) (sym (response_open fresh))
              (subst
                (λ n. Marked sets ((from_bytes d).offset) n (is_partial (from_bytes d)) accepted)
                (omega (arith, c.tagged))
                (accept-Marked sets m ((from_bytes d).offset) (length (body d)) c.text
                  (is_partial (from_bytes d)) c.part (omega (arith, c.tagged)) o.response)))
      ]
        where
          response_open : o.finished ≡ false → (unpack cipher sets o d).response ≡ accepted
          response_open fresh =
              ap (λ (o' : Operation cipher sets). o'.response) (unpack_open fresh)
              ∙ response-settle (record o { response = accepted })

      pub Noted-unpack :
          (d' : List ℕ)
          → Carries cipher sending m d'
          → Noted d' o
          → Noted d' (unpack cipher sets o d)
      Noted-unpack d' c' noted = elim (Bool-cases o.finished) [
        | inl done ↦
            inl (ap (λ (o' : Operation cipher sets). o'.finished) (unpack_closed done) ∙ done)
        | inr fresh ↦ elim noted [
          | inl done ↦ absurd (cc (done, fresh))
          | inr k ↦ inr (
              subst (λ a. MarkedBy sets a d')
                (sym (
                  ap (λ (o' : Operation cipher sets). o'.response) (unpack_open fresh)
                  ∙ response-settle (record o { response = accepted })))
                (Marked-accept sets m ((from_bytes d).offset) (length (body d)) c.text
                  (is_partial (from_bytes d)) c.part (omega (arith, c.tagged))
                  ((from_bytes d').offset) (length (body d') - 16) (is_partial (from_bytes d'))
                  o.response (λ e. omega (arith, c'.part.last e, c'.tagged)) k))
        ]
      ]
