-- ===== src/Net/Rpc/Server/Receive.antt =====
-- The requests that a server puts together, from datagrams in any order, each as often as it comes.
use trunk.Prelude.{
  ℕ, ◌-◌, ◌<◌, ◌≡◌, refl, ap, ap₂, subst, sym, ◌∙◌, List, [], ◌∷◌, none, some, true, false, ◌⊎◌,
  inl, inr, Bool-cases, if_true, if_false, if◌then◌else◌, map, take, drop, length, take-take,
  take_all, arith,
}
use trunk.Security.Key.{Cipher, Key, encrypt, decrypt}
use trunk.Security.Keystore
use trunk.Security.Keystore.{Keystore}
use trunk.Net.Rpc.Wire.{from_bytes, body, is_partial, nonce}
use trunk.Net.Rpc.Fragments.{Sending}
use trunk.Net.Rpc.Fragments.Cut.{Carries, MarkedBy}
use trunk.Net.Rpc.Assembly.{IntervalSet, Assembly, write, is_complete, unknown_size}
use trunk.Net.Rpc.Assembly.Holds.{
  Holds, Marked, accept, accept-Holds, accept-Marked, Marked-accept, complete-Holds,
}
use trunk.Net.Rpc.Server.{
  Operation, Effect, call, send_to, has_handler, back_to_zero, method_of, request_of, respond,
  handle, opened, try_keys, opened_or, keys_for, tried, unpack,
}
use trunk.Net.Rpc.Server.Method.{back_to_zero-take, back_to_zero-le}

-- What is read of the bytes in front is read of the message that stands there.
front_method :
    (bytes m : List ℕ)
    → take (length m) bytes ≡ m
    → (method_of bytes (length m) ≡ method_of m (length m))
      × (request_of bytes (length m) ≡ request_of m (length m))
unfolding method_of request_of
front_method bytes m same =
    let n : ℕ = length m in
    let stops : back_to_zero bytes n ≡ back_to_zero m n =
      sym (back_to_zero-take n n bytes (omega arith)) ∙ ap (λ t. back_to_zero t n) same in
    let k : ℕ = back_to_zero m n - 1 in
    (
      ap₂ (λ k t. drop k t) stops (same ∙ sym (take_all n m (omega arith))),
      ap (λ k. take (k - 1) bytes) stops
          ∙ sym (take-take k n bytes (omega (arith, back_to_zero-le m n)))
          ∙ ap (take k) same,
    )

module _ (cipher : Cipher) (sets : IntervalSet) where
  -- An operation that waits for a message, and one whose handler has been called.
  pub record Waits (key : Key) (m : List ℕ) (o : Operation cipher sets) : Type 0 where
    pub keyed : (o.key ≡ none) ⊎ (o.key ≡ some key)
    pub holds : Holds sets m o.request
    pub open_yet : is_complete sets o.request ≡ false
    pub silent : o.response_buffers ≡ []

  pub record Called (key : Key) (o : Operation cipher sets) : Type 0 where
    pub keyed : o.key ≡ some key
    pub complete : is_complete sets o.request ≡ true
    pub silent : o.response_buffers ≡ []

  module _ (handlers : List (List ℕ)) (keystore : Keystore) (sending : Sending)
      (from_client : sending.direction ≡ 0)
      (only_key : Keystore.find sending.key_fingerprint keystore ≡ sending.key ∷ []) (m : List ℕ)
      (short : length m < unknown_size)
      (handled : has_handler (method_of m (length m)) handlers ≡ true) where
    -- The one call of the handler.
    abbrev pub the_call : Effect
    the_call = call (method_of m (length m)) (request_of m (length m)) sending.key

    abbrev pub Progress : Operation cipher sets → List Effect → Type 0
    Progress o effects =
        (Waits sending.key m o × (effects ≡ []))
        ⊎ (Called sending.key o × (effects ≡ the_call ∷ []))

    module _ (o : Operation cipher sets) (d : List ℕ) (c : Carries cipher sending m d) where
      abbrev accepted : Assembly sets
      accepted =
          accept sets ((from_bytes d).offset) (length (body d)) c.text (is_partial (from_bytes d))
            o.request

      opens :
          decrypt cipher sending.key
            (nonce ((from_bytes d).request_id) ((from_bytes d).offset) 0)
            (body d)
          ≡ some c.text
      unfolding decrypt encrypt
      opens =
          ap (λ i. cipher.aead_open sending.key (nonce i ((from_bytes d).offset) 0) (body d))
            c.identity
          ∙ ap (cipher.aead_open sending.key (nonce sending.request_id ((from_bytes d).offset) 0)) (
              c.sealed
              ∙ ap
                  (λ k.
                    encrypt cipher sending.key (nonce sending.request_id ((from_bytes d).offset) k)
                      c.text)
                  from_client)
          ∙ cipher.aead_open-seal _ _ _

      the_key :
          (o.key ≡ none) ⊎ (o.key ≡ some sending.key)
          → keys_for cipher sets o.key (Keystore.find ((from_bytes d).key_fingerprint) keystore)
            ≡ sending.key ∷ []
      unfolding keys_for
      the_key (inl e) =
          ap (λ k. keys_for cipher sets k (Keystore.find ((from_bytes d).key_fingerprint) keystore))
            e
          ∙ ap (λ fp. Keystore.find fp keystore) c.named
          ∙ only_key
      the_key (inr e) =
          ap (λ k. keys_for cipher sets k (Keystore.find ((from_bytes d).key_fingerprint) keystore))
            e

      -- The datagram is opened by the one key, be it that of the operation or of the keystore.
      unpack_open :
          (o.key ≡ none) ⊎ (o.key ≡ some sending.key)
          → unpack cipher sets handlers keystore o d
            ≡ opened cipher sets handlers o sending.key (from_bytes d) (length (body d)) c.text
      unfolding unpack try_keys tried opened_or
      unpack_open keyed =
          ap
            (λ keys. tried cipher sets handlers o (from_bytes d) (length (body d)) (
              try_keys cipher sets (nonce ((from_bytes d).request_id) ((from_bytes d).offset) 0)
                (body d) (from_bytes d) keys o.request))
            (the_key keyed)
          ∙ ap
              (λ r. tried cipher sets handlers o (from_bytes d) (length (body d)) (
                opened_or cipher sets sending.key o.request
                  (
                    none,
                    write sets ((from_bytes d).offset) (length (body d))
                        (cipher.aead_refused sending.key
                          (nonce ((from_bytes d).request_id) ((from_bytes d).offset) 0) (body d))
                        o.request,
                  )
                  r))
              opens

      abbrev marked : Operation cipher sets
      marked = record o { key = some sending.key; request = accepted }

      handle_call :
          is_complete sets accepted ≡ true
          → Holds sets m accepted
          → handle cipher sets handlers sending.key marked
            ≡ (record marked { request = record accepted { bytes = [] } }, the_call ∷ [])
      unfolding handle
      handle_call e h =
          let (size, long, same) = complete-Holds sets m accepted h short e in
          let same_m : take (length m) accepted.bytes ≡ m =
            ap (λ k. take k accepted.bytes) (sym size) ∙ same in
          let (em, er) = front_method accepted.bytes m same_m in
          ap₂
            (λ method request.
              if has_handler method handlers
              then (
                record marked { request = record accepted { bytes = [] } },
                call method request sending.key ∷ [],
              )
              else (marked, []))
            (ap (method_of accepted.bytes) size ∙ em) (ap (request_of accepted.bytes) size ∙ er)
          ∙ if_true _ _ _ handled

      opened_waiting :
          is_complete sets o.request ≡ false
          → opened cipher sets handlers o sending.key (from_bytes d) (length (body d)) c.text ≡ (
              if is_complete sets accepted
              then handle cipher sets handlers sending.key marked
              else (marked, []))
      unfolding opened
      opened_waiting e = if_false _ _ _ e

      module _ (w : Waits sending.key m o) where
        accepted-Holds : Holds sets m accepted
        accepted-Holds =
            accept-Holds sets m ((from_bytes d).offset) (length (body d)) c.text
              (is_partial (from_bytes d)) c.part (omega (arith, c.tagged)) o.request w.holds

        unpack_completes :
            is_complete sets accepted ≡ true
            → unpack cipher sets handlers keystore o d
              ≡ (record marked { request = record accepted { bytes = [] } }, the_call ∷ [])
        unpack_completes e =
            unpack_open w.keyed
            ∙ opened_waiting w.open_yet
            ∙ if_true _ _ _ e
            ∙ handle_call e accepted-Holds

        unpack_waits :
            is_complete sets accepted ≡ false
            → unpack cipher sets handlers keystore o d ≡ (marked, [])
        unpack_waits e = unpack_open w.keyed ∙ opened_waiting w.open_yet ∙ if_false _ _ _ e

        -- A datagram leaves a waiting operation waiting, or makes it call its handler.
        pub unpack-Progress :
            let r = unpack cipher sets handlers keystore o d in Progress (r.0) (r.1)
        unfolding is_complete
        unpack-Progress = elim (Bool-cases (is_complete sets accepted)) [
          | inl e ↦
              subst (λ (r : Operation cipher sets × List Effect). Progress (r.0) (r.1))
                (sym (unpack_completes e))
                (inr (record { keyed = refl; complete = e; silent = w.silent }, refl))
          | inr e ↦
              subst (λ (r : Operation cipher sets × List Effect). Progress (r.0) (r.1))
                (sym (unpack_waits e))
                (inl (
                  record {
                    keyed = inr refl;
                    holds = accepted-Holds;
                    open_yet = e;
                    silent = w.silent;
                  },
                  refl,
                ))
        ]

        -- If it still waits, the part of the datagram is marked, and the marks of others stay.
        pub unpack_marks :
            (d' : List ℕ)
            → Carries cipher sending m d'
            → (d' ≡ d) ⊎ MarkedBy sets o.request d'
            → (is_complete sets (unpack cipher sets handlers keystore o d).0.request ≡ true)
              ⊎ MarkedBy sets (unpack cipher sets handlers keystore o d).0.request d'
        unfolding is_complete
        unpack_marks d' c' h = elim (Bool-cases (is_complete sets accepted)) [
          | inl e ↦ inl (
              ap (λ (r : Operation cipher sets × List Effect). is_complete sets (r.0.request))
                (unpack_completes e)
              ∙ e)
          | inr e ↦ inr (
              subst (λ (r : Operation cipher sets × List Effect). MarkedBy sets (r.0.request) d')
                (sym (unpack_waits e))
                (elim h [
                  | inl here ↦ subst (MarkedBy sets accepted) (sym here) (
                      subst
                        (λ n.
                          Marked sets ((from_bytes d).offset) n (is_partial (from_bytes d))
                            accepted)
                        (omega (arith, c.tagged))
                        (accept-Marked sets m ((from_bytes d).offset) (length (body d)) c.text
                          (is_partial (from_bytes d)) c.part (omega (arith, c.tagged)) o.request))
                  | inr k ↦
                      Marked-accept sets m ((from_bytes d).offset) (length (body d)) c.text
                        (is_partial (from_bytes d)) c.part (omega (arith, c.tagged))
                        ((from_bytes d').offset) (length (body d') - 16)
                        (is_partial (from_bytes d')) o.request
                        (λ e'. omega (arith, c'.part.last e', c'.tagged)) k
                ]))
        ]

      -- After the call a datagram changes nothing that matters, and nothing is sent.
      pub unpack-Called :
          Called sending.key o
          → Called sending.key ((unpack cipher sets handlers keystore o d).0)
            × ((unpack cipher sets handlers keystore o d).1 ≡ [])
      unfolding opened is_complete write respond
      unpack-Called k =
          let o' : Operation cipher sets = record o {
            key = some sending.key;
            request = write sets ((from_bytes d).offset) (length (body d)) c.text o.request;
          } in
          let quiet : respond cipher sets o' ≡ [] = ap (map (send_to o.client_endpoint)) k.silent in
          let same : unpack cipher sets handlers keystore o d
              ≡ (o', if is_partial (from_bytes d) then [] else respond cipher sets o') =
            unpack_open (inr k.keyed) ∙ if_true _ _ _ k.complete in
          subst (λ (r : Operation cipher sets × List Effect). Called sending.key (r.0) × (r.1 ≡ []))
            (sym same)
            (
              record { keyed = refl; complete = k.complete; silent = k.silent },
              elim (is_partial (from_bytes d))
                  as (λ b. (if b then [] else respond cipher sets o') ≡ []) [
                    | true ↦ refl
                    | false ↦ quiet
                  ],
            )
