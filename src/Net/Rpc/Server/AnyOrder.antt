-- ===== src/Net/Rpc/Server/AnyOrder.antt =====
-- A request in any order: what a client has packed, and a server has received of it.
use trunk.Prelude.{
  ℕ, ◌≤◌, ◌<◌, ◌≡◌, ◌≢◌, refl, ap, ap₂, ◌∙◌, List, [], ◌∷◌, ◌++◌, some, true, ◌⊎◌, inl, inr, length,
  All, arith,
}
use trunk.Security.Key.{Cipher, Key}
use trunk.Security.Keystore
use trunk.Security.Keystore.{Keystore}
use trunk.Net.Rpc.Fragments.{Sending, pack}
use trunk.Net.Rpc.Fragments.Cut.{longest, IsProper, Carries, MarkedBy}
use trunk.Net.Rpc.Fragments.Among.{Among, All_among, MarkedBy-each, carried-Among, packed-Cut}
use trunk.Net.Rpc.OperationKey.{OperationKey}
use trunk.Net.Rpc.Assembly.{IntervalSet, is_complete, unknown_size}
use trunk.Net.Rpc.Assembly.Holds.{new_assembly-Holds, new_assembly_open, all_marked}
use trunk.Net.Rpc.Client.{message}
use trunk.Net.Rpc.Server.{Operation, Effect, call, has_handler, method_of, new_operation, unpack}
use trunk.Net.Rpc.Server.Method.{method_of-message}
use trunk.Net.Rpc.Server.Receive.{
  Waits, Called, the_call, Progress, unpack-Progress, unpack_marks, unpack-Called,
}

module _ (cipher : Cipher) (sets : IntervalSet) where
  -- The datagrams that an operation is given, one after the other.
  unfoldable pub unpack_all :
      List (List ℕ)
      → Keystore
      → Operation cipher sets
      → List (List ℕ)
      → Operation cipher sets × List Effect
  unpack_all handlers keystore o [] = (o, [])
  unpack_all handlers keystore o (d ∷ ds) =
      let (o', effects) = unpack cipher sets handlers keystore o d in
      let (o'', more) = unpack_all handlers keystore o' ds in (o'', effects ++ more)

  module _ (handlers : List (List ℕ)) (keystore : Keystore) (sending : Sending)
      (from_client : sending.direction ≡ 0)
      (only_key : Keystore.find sending.key_fingerprint keystore ≡ sending.key ∷ []) (m : List ℕ)
      (short : length m < unknown_size)
      (handled : has_handler (method_of m (length m)) handlers ≡ true) where
    abbrev Goes : Operation cipher sets → List Effect → Type 0
    Goes o effects =
        Progress cipher sets handlers keystore sending from_client only_key m short handled o
          effects

    abbrev Step : Operation cipher sets → List ℕ → Operation cipher sets × List Effect
    Step o d = unpack cipher sets handlers keystore o d

    Called-once :
        (ds : List (List ℕ)) (o : Operation cipher sets)
        → All (Carries cipher sending m) ds
        → Called cipher sets sending.key o
        → let r = unpack_all handlers keystore o ds in
          Called cipher sets sending.key (r.0) × (r.1 ≡ [])
    unfolding unpack_all
    Called-once [] o all k = (k, refl)
    Called-once (d ∷ ds) o (c, all) k =
        let (k', none_now) =
          unpack-Called cipher sets handlers keystore sending from_client only_key m short handled o
            d c k in
        let (k'', none_later) = Called-once ds ((Step o d).0) all k' in
        (k'', ap₂ ◌++◌ none_now none_later)

    unpack_all-Progress :
        (ds : List (List ℕ)) (o : Operation cipher sets)
        → All (Carries cipher sending m) ds
        → Waits cipher sets sending.key m o
        → let r = unpack_all handlers keystore o ds in Goes (r.0) (r.1)
    unfolding unpack_all
    unpack_all-Progress [] o all w = inl (w, refl)
    unpack_all-Progress (d ∷ ds) o (c, all) w =
        elim (unpack-Progress cipher sets handlers keystore sending from_client only_key m short
          handled o d c w) [
            | inl (w', none_now) ↦ elim (unpack_all-Progress ds ((Step o d).0) all w') [
              | inl (w'', none_later) ↦ inl (w'', ap₂ ◌++◌ none_now none_later)
              | inr (k, one_later) ↦ inr (k, ap₂ ◌++◌ none_now one_later)
            ]
            | inr (k, one_now) ↦
                let (k', none_later) = Called-once ds ((Step o d).0) all k in
                inr (k', ap₂ ◌++◌ one_now none_later)
          ]

    unpack_all_marks :
        (ds : List (List ℕ)) (o : Operation cipher sets) (d' : List ℕ)
        → All (Carries cipher sending m) ds
        → Carries cipher sending m d'
        → Waits cipher sets sending.key m o
        → MarkedBy sets o.request d' ⊎ Among ds d'
        → (is_complete sets (unpack_all handlers keystore o ds).0.request ≡ true)
          ⊎ MarkedBy sets (unpack_all handlers keystore o ds).0.request d'
    unfolding unpack_all
    unpack_all_marks [] o d' all c' w (inl k) = inr k
    unpack_all_marks [] o d' all c' w (inr h) = elim h [ ]
    unpack_all_marks (d ∷ ds) o d' (c, all) c' w h =
        elim (unpack-Progress cipher sets handlers keystore sending from_client only_key m short
          handled o d c w) [
            | inr (k, _) ↦ inl ((Called-once ds ((Step o d).0) all k).0.complete)
            | inl (w', _) ↦ unpack_all_marks ds ((Step o d).0) d' all c' w' (elim h [
              | inl k ↦ inl (still o d c w d' c' w' (inr k))
              | inr now ↦ elim now [
                | inl e ↦ inl (still o d c w d' c' w' (inl e))
                | inr later ↦ inr later
              ]
            ])
          ]
      where
        still :
            (o : Operation cipher sets) (d : List ℕ) (c : Carries cipher sending m d)
            (w : Waits cipher sets sending.key m o) (d' : List ℕ)
            → Carries cipher sending m d'
            → Waits cipher sets sending.key m ((Step o d).0)
            → (d' ≡ d) ⊎ MarkedBy sets o.request d'
            → MarkedBy sets (Step o d).0.request d'
        still o d c w d' c' w' h =
            elim (unpack_marks cipher sets handlers keystore sending from_client only_key m short
              handled o d c w d' c' h) [ inl done ↦ absurd (cc (done, w'.open_yet)) | inr k ↦ k ]

    each_arrived :
        (ds frags : List (List ℕ)) (o : Operation cipher sets)
        → All (Carries cipher sending m) ds
        → All (Carries cipher sending m) frags
        → All (Among ds) frags
        → Waits cipher sets sending.key m o
        → ((a : _) → All (MarkedBy sets a) frags → is_complete sets a ≡ true)
        → (unpack_all handlers keystore o ds).1
          ≡ the_call cipher sets handlers keystore sending from_client only_key m short handled ∷ []
    each_arrived ds frags o carried carried' all w complete =
        elim (unpack_all-Progress ds o carried w) [
          | inr (_, e) ↦ e
          | inl (w', _) ↦ absurd (
              cc (
                w'.open_yet,
                complete ((unpack_all handlers keystore o ds).0.request) (
                    MarkedBy-each sets ((unpack_all handlers keystore o ds).0.request) ds frags
                      (λ d h.
                        elim (unpack_all_marks ds o d carried
                          (All_among (Carries cipher sending m) frags d carried' h) w
                          (inr (All_among (Among ds) frags d all h))) [
                            | inl done ↦ absurd (cc (done, w'.open_yet))
                            | inr k ↦ k
                          ])),
              ))
        ]

fresh-Waits :
    (cipher : Cipher) (sets : IntervalSet) (key : Key) (m : List ℕ) (endpoint : ℕ)
    (k : OperationKey)
    → Waits cipher sets key m (new_operation cipher sets endpoint k)
unfolding new_operation
fresh-Waits cipher sets key m endpoint k = record {
  keyed = inl refl;
  holds = new_assembly-Holds sets m;
  open_yet = new_assembly_open sets;
  silent = refl;
}

method_handled :
    (handlers : List (List ℕ)) (method input : List ℕ)
    → All (λ c. c ≢ 0) method
    → has_handler method handlers ≡ true
    → has_handler (method_of (message method input) (length (message method input))) handlers ≡ true
method_handled handlers method input nonzero handled =
    ap (λ name. has_handler name handlers) ((method_of-message method input nonzero).0) ∙ handled

-- A request of 2^16 bytes at most with its method, packed by a client; and a server that has a
-- handler of the method and under the fingerprint just the key. A new operation that is given some
-- of the fragments, in any order and as often as they come, calls the handler once, with the request
-- and the key, or does nothing at all.
pub request-any_order :
    (cipher : Cipher) (sets : IntervalSet) (handlers : List (List ℕ)) (keystore : Keystore)
    (sending : Sending) (method input : List ℕ) (frags ds : List (List ℕ)) (endpoint : ℕ)
    (k : OperationKey)
    → sending.direction ≡ 0
    → IsProper sending
    → Keystore.find sending.key_fingerprint keystore ≡ sending.key ∷ []
    → All (λ c. c ≢ 0) method
    → has_handler method handlers ≡ true
    → length (message method input) ≤ longest
    → pack cipher sending (message method input) ≡ some frags
    → All (Among frags) ds
    → let effects =
        (unpack_all cipher sets handlers keystore (new_operation cipher sets endpoint k) ds).1 in
      (effects ≡ []) ⊎ (effects ≡ call method input sending.key ∷ [])
request-any_order cipher sets handlers keystore sending method input frags ds endpoint k dir proper
      only_key nonzero handled short is among =
    let m : List ℕ = message method input in
    let cut = packed-Cut cipher sending m frags short proper is in
    let (em, er) = method_of-message method input nonzero in
    elim (unpack_all-Progress cipher sets handlers keystore sending dir only_key m (omega arith)
      (method_handled handlers method input nonzero handled) ds
      (new_operation cipher sets endpoint k)
      (carried-Among cipher sending m frags ds cut.carried among)
      (fresh-Waits cipher sets sending.key m endpoint k)) [
        | inl (_, e) ↦ inl e
        | inr (_, e) ↦
            inr (e ∙ ap₂ (λ (name request : List ℕ). call name request sending.key ∷ []) em er)
      ]

-- Under the same conditions: once every fragment has come, the handler has been called, once.
pub request-each_arrived :
    (cipher : Cipher) (sets : IntervalSet) (handlers : List (List ℕ)) (keystore : Keystore)
    (sending : Sending) (method input : List ℕ) (frags ds : List (List ℕ)) (endpoint : ℕ)
    (k : OperationKey)
    → sending.direction ≡ 0
    → IsProper sending
    → Keystore.find sending.key_fingerprint keystore ≡ sending.key ∷ []
    → All (λ c. c ≢ 0) method
    → has_handler method handlers ≡ true
    → length (message method input) ≤ longest
    → pack cipher sending (message method input) ≡ some frags
    → All (Among frags) ds
    → All (Among ds) frags
    → (unpack_all cipher sets handlers keystore (new_operation cipher sets endpoint k) ds).1
      ≡ call method input sending.key ∷ []
request-each_arrived cipher sets handlers keystore sending method input frags ds endpoint k dir
      proper only_key nonzero handled short is among all =
    let m : List ℕ = message method input in
    let cut = packed-Cut cipher sending m frags short proper is in
    let (em, er) = method_of-message method input nonzero in
    each_arrived cipher sets handlers keystore sending dir only_key m (omega arith)
      (method_handled handlers method input nonzero handled) ds frags
      (new_operation cipher sets endpoint k)
      (carried-Among cipher sending m frags ds cut.carried among) cut.carried all
      (fresh-Waits cipher sets sending.key m endpoint k)
      (λ a ks.
        let (covers, size) = cut.covered sets a ks in
        all_marked sets m a size (λ i h. covers i (omega arith) h))
    ∙ ap₂ (λ (name request : List ℕ). call name request sending.key ∷ []) em er
