-- ===== src/Net/IcmpClient/Operations.antt =====
-- The map of operations, and what a datagram does to it.
use trunk.Prelude.{
  take, ℕ, zero, suc, ◌≡◌, ap, ◌∙◌, ◌<◌, subst, sym, List, [], ◌∷◌, Option, none, some,
  Option-cases, ◌==◌, ==_iff, if_true, if_false, drop, Bool-cases, ◌⊎◌, inl, inr, All, arith,
}
use trunk.Prelude.Result.{Errc}
use trunk.Net.IcmpClient.{
  IcmpClient, Operation, Effect, find, update, put_back, finish, receive, match_reply, received,
  word,
}

pub All-unit : (os : List Operation) → All (λ _. Unit {0}) os
All-unit [] = tt
All-unit (o ∷ os) = (tt, All-unit os)

-- An operation found is one of the list, and has the number looked for.
pub find-All :
    (P : Operation → Type 0) (n : ℕ) (os : List Operation) (o : Operation)
    → All P os
    → find n os ≡ some o
    → P o × (o.sequence_number ≡ n)
unfolding find
find-All P n [] o all e = absurd (cc e)
find-All P n (x ∷ os) o (p, all) e = elim (Bool-cases (x.sequence_number == n)) [
  | inl same ↦
      let is : x ≡ o = ground (arith, e, same) in
      (subst P is p, ap (λ y. y.sequence_number) (sym is) ∙ (==_iff _ _).0 same)
  | inr other ↦ find-All P n os o all (ground (arith, e, other))
]

put_back-All :
    (P : Operation → Type 0) (refs : ℕ) (o : Operation) (os : List Operation)
    → All P os
    → (0 < refs → P o)
    → All P (put_back refs o os)
unfolding put_back
put_back-All P zero o os all h = all
put_back-All P (suc refs) o os all h = (h (omega arith), all)

pub update-All :
    (P : Operation → Type 0) (o : Operation) (os : List Operation)
    → All P os
    → (0 < o.refs → P o)
    → All P (update o os)
unfolding update
update-All P o [] all h = tt
update-All P o (x ∷ os) (p, all) h = elim (Bool-cases (x.sequence_number == o.sequence_number)) [
  | inl same ↦ subst (All P) (sym (if_true _ _ _ same)) (put_back-All P o.refs o os all h)
  | inr other ↦ subst (All P) (sym (if_false _ _ _ other)) (p, update-All P o os all h)
]

pub match_reply-found :
    (buffer : List ℕ) (s : IcmpClient) (o : Operation) (found : List ℕ)
    → match_reply buffer s ≡ some (o, found)
    → (i : ℕ) × (find i s.operations ≡ some o)
unfolding match_reply
match_reply-found [] s o found e = absurd (cc e)
match_reply-found (kind ∷ []) s o found e = absurd (cc e)
match_reply-found (kind ∷ code ∷ []) s o found e = absurd (cc e)
match_reply-found (kind ∷ code ∷ c1 ∷ []) s o found e = absurd (cc e)
match_reply-found (kind ∷ code ∷ c1 ∷ c2 ∷ []) s o found e = absurd (cc e)
match_reply-found (kind ∷ code ∷ c1 ∷ c2 ∷ i1 ∷ []) s o found e = absurd (cc e)
match_reply-found (kind ∷ code ∷ c1 ∷ c2 ∷ i1 ∷ i2 ∷ []) s o found e = absurd (cc e)
match_reply-found (kind ∷ code ∷ c1 ∷ c2 ∷ i1 ∷ i2 ∷ n1 ∷ []) s o found e = absurd (cc e)
match_reply-found (kind ∷ code ∷ c1 ∷ c2 ∷ i1 ∷ i2 ∷ n1 ∷ n2 ∷ buffer) s o found e =
    (word n1 n2, ground (arith, e))

-- The handler of `receive`: nothing, or an operation of the map finishes.
pub received-cases :
    (ec : Option Errc) (buffer : List ℕ) (s s' : IcmpClient) (effects : List Effect)
    → received ec buffer s ≡ some (s', effects)
    → ((s'.operations ≡ s.operations) × (effects ≡ []))
      ⊎ ((i : ℕ) × (o : Operation) × (found : List ℕ) × (s'' : IcmpClient) × (find i s.operations
            ≡ some o)
          × (finish none found o s ≡ some (s'', effects))
          × (s'.operations ≡ s''.operations))
unfolding received receive
received-cases (some e) buffer s s' effects h = inl (ground (arith, h))
received-cases none buffer s s' effects h =
    elim (Option-cases (match_reply (drop 20 (take s.receive_buffer_size buffer)) s)) [
      | inl nothing ↦ inl (ground (arith, h, nothing))
      | inr ((o, found), e) ↦ elim (Option-cases (finish none found o s)) [
        | inl undefined ↦ absurd (ground (arith, h, e, undefined))
        | inr ((s'', effects'), e') ↦
            let (i, at) =
              match_reply-found (drop 20 (take s.receive_buffer_size buffer)) s o found e in
            let ends : ◌≡◌ {A = IcmpClient × List Effect} (receive s'', effects') (s', effects) =
              ground (arith, h, e, e') in
            inr (
              i,
              o,
              found,
              s'',
              at,
              e' ∙ ap (λ q. some (s'', q.1)) ends,
              ap (λ q. q.0.operations) (sym ends),
            )
      ]
    ]
