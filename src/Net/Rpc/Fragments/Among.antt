-- ===== src/Net/Rpc/Fragments/Among.antt =====
-- Datagrams that are some of those of a message.
use trunk.Prelude.{
  All-map, ℕ, ◌≤◌, ◌≡◌, refl, subst, sym, List, [], ◌∷◌, some, ◌⊎◌, inl, inr, length, All,
}
use trunk.Security.Key.{Cipher}
use trunk.Net.Rpc.Fragments.{Sending, pack}
use trunk.Net.Rpc.Fragments.Cut.{longest, IsProper, Carries, MarkedBy, Cut, pack-Cut}
use trunk.Net.Rpc.Assembly.{IntervalSet, Assembly}

-- A datagram is one of a list.
abbrev pub Among : List (List ℕ) → List ℕ → Type 0
Among [] d = ⊥
Among (x ∷ xs) d = (d ≡ x) ⊎ Among xs d

pub All_among :
    (P : List ℕ → Type 0) (xs : List (List ℕ)) (d : List ℕ) → All P xs → Among xs d → P d
All_among P [] d all h = elim h [ ]
All_among P (x ∷ xs) d (p, all) (inl e) = subst P (sym e) p
All_among P (x ∷ xs) d (p, all) (inr h) = All_among P xs d all h

pub MarkedBy-each :
    (sets : IntervalSet) (a : Assembly sets) (ds frags : List (List ℕ))
    → ((d : List ℕ) → Among frags d → MarkedBy sets a d)
    → All (MarkedBy sets a) frags
MarkedBy-each sets a ds [] h = tt
MarkedBy-each sets a ds (d ∷ frags) h =
    (h d (inl refl), MarkedBy-each sets a ds frags (λ d' k. h d' (inr k)))

pub carried-Among :
    (cipher : Cipher) (sending : Sending) (m : List ℕ) (frags ds : List (List ℕ))
    → All (Carries cipher sending m) frags
    → All (Among frags) ds
    → All (Carries cipher sending m) ds
carried-Among cipher sending m frags ds carried among =
    All-map (Among frags) (Carries cipher sending m) ds
      (λ d h. All_among (Carries cipher sending m) frags d carried h) among

pub packed-Cut :
    (cipher : Cipher) (sending : Sending) (m : List ℕ) (frags : List (List ℕ))
    → length m ≤ longest
    → IsProper sending
    → pack cipher sending m ≡ some frags
    → Cut cipher sending m 0 frags
packed-Cut cipher sending m frags short proper is =
    let (frags', is', cut) = pack-Cut cipher sending m short proper in
    let same : frags' ≡ frags = cc (is, is') in subst (Cut cipher sending m 0) same cut
