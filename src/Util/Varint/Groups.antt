-- ===== src/Util/Varint/Groups.antt =====
-- What `append_varint` writes: the groups of seven bits, each but the last with the top bit set.
use trunk.Prelude.{
  ℕ, zero, suc, ◌+◌, ◌/◌, ◌%◌, ◌^◌, ◌≤◌, ◌<◌, ◌≡◌, refl, bit_or, List, [], ◌∷◌, ◌++◌, some, true,
  false, ltb, length, append_assoc, arith,
}
use trunk.Prelude.Bits.{all_below, agree, bit_and-0x7f}
use trunk.Util.Varint.{append_loop, append_varint}

-- The groups of a value below 128 ^ (k + 1).
unfoldable pub groups : ℕ → ℕ → List ℕ
groups zero v = v ∷ []
groups (suc k) v = elim (ltb v 128) [ true ↦ v ∷ [] | false ↦ (v % 128 + 128) ∷ groups k (v / 128) ]

set_top_bit : (c : ℕ) → c < 128 → bit_or c 0x80 ≡ c + 128
unfolding all_below
set_top_bit c h = agree 128 (λ i. bit_or i 0x80) (λ i. i + 128) c refl h

append_loop-groups :
    (k v : ℕ) (output : List ℕ)
    → v < 128 ^ suc k
    → append_loop (suc k) v output ≡ some (output ++ groups k v)
unfolding append_loop groups
append_loop-groups zero v output h = ground (arith, bit_and-0x7f v)
append_loop-groups (suc k) v output h =
    let head : List ℕ = (v % 128 + 128) ∷ [] in
    ground (
      arith,
      bit_and-0x7f v,
      set_top_bit (v % 128),
      append_loop-groups k (v / 128) (output ++ head) (omega arith),
      append_assoc output head (groups k (v / 128)),
    )

-- On every value of 64 bits the loop ends within its ten rounds, `output` keeps what it held, and
-- the groups of the value follow.
pub append_varint-groups :
    (v : ℕ) (output : List ℕ) → v < 2 ^ 64 → append_varint v output ≡ some (output ++ groups 9 v)
unfolding append_varint
append_varint-groups v output h = append_loop-groups 9 v output (omega arith)

pub length-groups : (k v : ℕ) → (1 ≤ length (groups k v)) × (length (groups k v) ≤ k + 1)
unfolding groups
length-groups zero v = omega arith
length-groups (suc k) v = ground (arith, length-groups k (v / 128))
