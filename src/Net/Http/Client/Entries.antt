-- ===== src/Net/Http/Client/Entries.antt =====
-- What holds of all connections of the pool.
use trunk.Prelude.{ℕ, List, [], ◌∷◌, inl, inr, Bool-cases, All, All-map}
use trunk.Net.Http.Client.{ConnectionKey, same_connection, Pool, find, put}

-- All the connections of the pool, of whatever key.
abbrev pub AllPooled : (ℕ → Type 0) → Pool → Type 0
AllPooled P pool = All (λ entry. All P entry.1) pool

pub find-All :
    (P : ℕ → Type 0) (k : ConnectionKey) (pool : Pool) → AllPooled P pool → All P (find k pool)
unfolding find
find-All P k [] all = tt
find-All P k ((k', ids) ∷ pool) (here, all) = elim (Bool-cases (same_connection k' k)) [
  | inl e ↦ rw e here
  | inr e ↦ rw e (find-All P k pool all)
]

pub put-All :
    (P : ℕ → Type 0) (k : ConnectionKey) (ids : List ℕ) (pool : Pool)
    → All P ids
    → AllPooled P pool
    → AllPooled P (put k ids pool)
unfolding put
put-All P k [] [] all rest = tt
put-All P k (id ∷ ids) [] all rest = (all, tt)
put-All P k [] ((k', ids') ∷ pool) all (here, rest) = elim (Bool-cases (same_connection k' k)) [
  | inl e ↦ rw e rest
  | inr e ↦ rw e (here, put-All P k [] pool all rest)
]
put-All P k (id ∷ ids) ((k', ids') ∷ pool) all (here, rest) =
    elim (Bool-cases (same_connection k' k)) [
      | inl e ↦ rw e (all, rest)
      | inr e ↦ rw e (here, put-All P k (id ∷ ids) pool all rest)
    ]

pub AllPooled-map :
    (P Q : ℕ → Type 0) (pool : Pool)
    → ((id : ℕ) → P id → Q id)
    → AllPooled P pool
    → AllPooled Q pool
AllPooled-map P Q pool f all =
    All-map (λ entry. All P entry.1) (λ entry. All Q entry.1) pool (λ entry. All-map P Q entry.1 f)
      all
