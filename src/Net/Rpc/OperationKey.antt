-- ===== src/Net/Rpc/OperationKey.antt =====
-- net/rpc/operation-key.h and net/rpc/operation-key.cc, and the maps of operations under such keys.
use trunk.Prelude.{ℕ, List, [], ◌∷◌, Option, none, some, Bool, ◌&&◌, ◌==◌, if◌then◌else◌}

pub record OperationKey : Type 0 where
  pub key_fingerprint : ℕ
  pub request_id : ℕ

-- `operator==`
unfoldable pub same : OperationKey → OperationKey → Bool
same a b = a.key_fingerprint == b.key_fingerprint && a.request_id == b.request_id

-- `absl::flat_hash_map`, as an association list.
module _ {A : Type 0} where
  unfoldable pub find : OperationKey → List (OperationKey × A) → Option A
  find k [] = none
  find k ((k', a) ∷ m) = if same k' k then some a else find k m

  -- What changes an operation that a pointer of the map points to.
  unfoldable pub assign : OperationKey → A → List (OperationKey × A) → List (OperationKey × A)
  assign k a [] = []
  assign k a ((k', b) ∷ m) = if same k' k then (k', a) ∷ m else (k', b) ∷ assign k a m

  unfoldable pub erase : OperationKey → List (OperationKey × A) → List (OperationKey × A)
  erase k [] = []
  erase k ((k', a) ∷ m) = if same k' k then m else (k', a) ∷ erase k m

  -- `emplace`, which changes nothing where the key is there already.
  unfoldable pub emplace :
      OperationKey → A → List (OperationKey × A) → Option (List (OperationKey × A))
  emplace k a m = elim (find k m) [ some _ ↦ none | none ↦ some ((k, a) ∷ m) ]
