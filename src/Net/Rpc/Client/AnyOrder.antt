-- ===== src/Net/Rpc/Client/AnyOrder.antt =====
-- A response in any order: what a server has packed, and a client has received of it.
use trunk.Prelude.{
  ℕ, ◌≤◌, ◌<◌, ◌≡◌, subst, sym, List, [], ◌∷◌, none, some, true, false, ◌⊎◌, inl, inr, Bool-cases,
  length, All, arith,
}
use trunk.Security.Key.{Cipher}
use trunk.Net.Rpc.Fragments.{Sending, pack}
use trunk.Net.Rpc.Fragments.Cut.{longest, IsProper, Carries}
use trunk.Net.Rpc.Assembly.{IntervalSet, new_assembly, is_complete, unknown_size}
use trunk.Net.Rpc.Assembly.Holds.{Holds, new_assembly-Holds, new_assembly_open, all_marked}
use trunk.Net.Rpc.Client.{Operation, unpack, outcome}
use trunk.Net.Rpc.Client.Receive.{
  unpack_all, Receives, Noted, unpack-Receives, unpack-Noted, Noted-unpack,
}
use trunk.Net.Rpc.Fragments.Among.{Among, All_among, MarkedBy-each, carried-Among, packed-Cut}

module _ (cipher : Cipher) (sets : IntervalSet) where
  -- An operation that has received nothing yet.
  pub record IsFresh (sending : Sending) (o : Operation cipher sets) : Type 1 where
    pub keyed : o.options.key ≡ sending.key
    pub unfinished : o.finished ≡ false
    pub nothing_yet : o.response ≡ new_assembly sets

  module _ (sending : Sending) (from_server : sending.direction ≡ 1) (m : List ℕ)
      (short : length m < unknown_size) where
    fresh-Receives :
        (o : Operation cipher sets) → IsFresh sending o → Receives cipher sets sending m o
    fresh-Receives o f = record {
      keyed = f.keyed;
      holds = subst (Holds sets m) (sym f.nothing_yet) (new_assembly-Holds sets m);
      waiting =
          λ _. subst (λ a. is_complete sets a ≡ false) (sym f.nothing_yet) (new_assembly_open sets);
      done = λ x. absurd (cc (x, f.unfinished));
    }

    unpack_all-Receives :
        (ds : List (List ℕ)) (o : Operation cipher sets)
        → All (Carries cipher sending m) ds
        → Receives cipher sets sending m o
        → Receives cipher sets sending m (unpack_all cipher sets o ds)
    unfolding unpack_all
    unpack_all-Receives [] o all r = r
    unpack_all-Receives (d ∷ ds) o (c, all) r =
        unpack_all-Receives ds _ all
          (unpack-Receives cipher sets sending from_server m short o d c r)

    unpack_all-Noted :
        (ds : List (List ℕ)) (d' : List ℕ) (o : Operation cipher sets)
        → All (Carries cipher sending m) ds
        → Carries cipher sending m d'
        → Receives cipher sets sending m o
        → Noted cipher sets d' o ⊎ Among ds d'
        → Noted cipher sets d' (unpack_all cipher sets o ds)
    unfolding unpack_all
    unpack_all-Noted [] d' o all c' r (inl noted) = noted
    unpack_all-Noted [] d' o all c' r (inr h) = elim h [ ]
    unpack_all-Noted (d ∷ ds) d' o (c, all) c' r h =
        unpack_all-Noted ds d' _ all c'
          (unpack-Receives cipher sets sending from_server m short o d c r)
          (elim h [
            | inl noted ↦
                inl (Noted-unpack cipher sets sending from_server m short o d c r d' c' noted)
            | inr here ↦ elim here [
              | inl e ↦ inl (
                  subst (λ k. Noted cipher sets k (unpack cipher sets o d)) (sym e)
                    (unpack-Noted cipher sets sending from_server m short o d c r))
              | inr later ↦ inr later
            ]
          ])

-- A response of 2^16 bytes at most, packed by a server; and a client's operation that has received
-- nothing yet, which is then given some of its fragments, in any order and as often as they come. If
-- it finishes, its callback gets the response and no error.
pub response-any_order :
    (cipher : Cipher) (sets : IntervalSet) (sending : Sending) (m : List ℕ)
    (frags ds : List (List ℕ)) (o : Operation cipher sets)
    → sending.direction ≡ 1
    → IsProper sending
    → length m ≤ longest
    → pack cipher sending m ≡ some frags
    → IsFresh cipher sets sending o
    → All (Among frags) ds
    → (unpack_all cipher sets o ds).finished ≡ true
    → outcome cipher sets (unpack_all cipher sets o ds) ≡ (none, m)
response-any_order cipher sets sending m frags ds o dir proper short is fresh among done =
    let cut = packed-Cut cipher sending m frags short proper is in
    let carried = carried-Among cipher sending m frags ds cut.carried among in
    (unpack_all-Receives cipher sets sending dir m (omega arith) ds o carried
        (fresh-Receives cipher sets sending dir m (omega arith) o fresh)).done
      done

-- Under the same conditions: once every fragment has come, the operation is finished, and its
-- callback gets the response and no error.
pub response-each_arrived :
    (cipher : Cipher) (sets : IntervalSet) (sending : Sending) (m : List ℕ)
    (frags ds : List (List ℕ)) (o : Operation cipher sets)
    → sending.direction ≡ 1
    → IsProper sending
    → length m ≤ longest
    → pack cipher sending m ≡ some frags
    → IsFresh cipher sets sending o
    → All (Among frags) ds
    → All (Among ds) frags
    → ((unpack_all cipher sets o ds).finished ≡ true)
      × (outcome cipher sets (unpack_all cipher sets o ds) ≡ (none, m))
response-each_arrived cipher sets sending m frags ds o dir proper short is fresh among all =
    let cut = packed-Cut cipher sending m frags short proper is in
    let carried = carried-Among cipher sending m frags ds cut.carried among in
    let start = fresh-Receives cipher sets sending dir m (omega arith) o fresh in
    let r = unpack_all-Receives cipher sets sending dir m (omega arith) ds o carried start in
    let o' = unpack_all cipher sets o ds in
    elim (Bool-cases (o'.finished)) [
      | inl e ↦ (e, r.done e)
      | inr e ↦
          let (covers, size) = cut.covered sets (o'.response) (
            MarkedBy-each sets (o'.response) ds frags (λ d h.
              elim (unpack_all-Noted cipher sets sending dir m (omega arith) ds d o carried
                (All_among (Carries cipher sending m) frags d cut.carried h) start
                (inr (All_among (Among ds) frags d all h))) [
                  | inl done ↦ absurd (cc (done, e))
                  | inr k ↦ k
                ])) in
          absurd (
            cc
              (r.waiting e, all_marked sets m (o'.response) size (λ i k. covers i (omega arith) k)))
    ]
