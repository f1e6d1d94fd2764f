-- ===== src/Net/Rpc/Assembly.antt =====
-- net/rpc/client.cc and net/rpc/server.cc: the fields in which a message is put together.
pub mod Lists
pub mod Holds
pub mod Runs
use trunk.Prelude.{
  ℕ, ◌+◌, ◌-◌, ◌≤◌, ◌<◌, ◌^◌, ◌≡◌, ◌↔◌, List, [], ◌++◌, Bool, true, false, ◌&&◌, ◌||◌, ltb, leb,
  if◌then◌else◌, take, drop, length,
}
use trunk.Io.MemoryFile.{resize}

-- `boost::icl::interval_set<size_t>`: a set of numbers to which right-open intervals are added, and
-- of which it can be asked whether it contains one.
pub record IntervalSet : Type 1 where
  pub Set : Type 0
  pub empty : Set
  pub add : Set → ℕ → ℕ → Set
  pub contains : Set → ℕ → ℕ → Bool
  pub member : Set → ℕ → Bool
  pub member-empty : (i : ℕ) → member empty i ≡ false
  pub member-add :
      (s : Set) (lo hi i : ℕ) → member (add s lo hi) i ≡ (member s i || (leb lo i && ltb i hi))
  pub contains_iff :
      (s : Set) (lo hi : ℕ)
      → (contains s lo hi ≡ true) ↔ ((i : ℕ) → lo ≤ i → i < hi → member s i ≡ true)

-- `std::numeric_limits<size_t>::max()`, the size of a message whose end has not arrived.
abbrev pub unknown_size : ℕ
unknown_size = 2 ^ 64 - 1

-- The resize to the end of the fragment's body, if the bytes are too short.
abbrev pub grow : ℕ → List ℕ → List ℕ
grow n bytes = if ltb (length bytes) n then resize n bytes else bytes

-- What a call of `decrypt` writes at an offset.
abbrev pub put : ℕ → List ℕ → List ℕ → List ℕ
put offset text bytes = take offset bytes ++ (text ++ drop (offset + length text) bytes)

module _ (sets : IntervalSet) where
  open sets use {Set, empty, add, contains}

  -- `request_`, `request_intervals_` and `request_size_`, or those of the response.
  pub record Assembly : Type 0 where
    pub bytes : List ℕ
    pub intervals : Set
    pub size : ℕ

  unfoldable pub new_assembly : Assembly
  new_assembly = record { bytes = []; intervals = empty; size = unknown_size }

  unfoldable pub write : ℕ → ℕ → List ℕ → Assembly → Assembly
  write offset body_size text a = record a {
    bytes = put offset text (grow (offset + body_size) a.bytes);
  }

  -- The interval of a fragment, and the size if it is the last one.
  unfoldable pub mark : ℕ → ℕ → Bool → Assembly → Assembly
  mark offset size partial a = record a {
    intervals = add a.intervals offset (offset + size);
    size = if partial then a.size else offset + size;
  }

  unfoldable pub is_complete : Assembly → Bool
  is_complete a = contains a.intervals 0 a.size
