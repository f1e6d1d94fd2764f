-- ===== src/Util/Rope/Content.antt =====
-- What a tree of buffers stands for: the text in order, and what makes the tree well formed.
use trunk.Prelude.{
  ℕ, ◌+◌, ◌≤◌, ◌<◌, ◌≡◌, refl, List, [], ◌++◌, take, drop, length, length-append, length-take,
  length-drop, append_assoc, take-append_le, drop-append_le, take-append_ge, drop-append_ge, arith,
}
use trunk.Util.Rope.{Rep, nil, node, buffer_size, splice, Rope}

abbrev pub content : Rep → List ℕ
content nil = []
content (node l lsize p buf r) = content l ++ (buf ++ content r)

-- `lsize` counts the bytes on the left, and no buffer is larger than its array.
abbrev pub IsWf : Rep → Type 0
IsWf nil = Unit
IsWf (node l lsize p buf r) =
    IsWf l × (lsize ≡ length (content l)) × (length buf ≤ buffer_size) × IsWf r

abbrev pub nodes : Rep → ℕ
nodes nil = 0
nodes (node l lsize p buf r) = nodes l + 1 + nodes r

-- The text of a rope, and its well-formedness.
abbrev pub text : Rope → List ℕ
text rope = content rope.rep

abbrev pub IsValid : Rope → Type 0
IsValid rope = IsWf rope.rep

pub content_of_no_nodes : (t : Rep) → nodes t ≡ 0 → content t ≡ []
content_of_no_nodes nil h = refl
content_of_no_nodes (node l lsize p buf r) h = absurd (omega arith)

pub length-content :
    (l : Rep) (buf : List ℕ) (r : Rep)
    → length (content l ++ (buf ++ content r))
      ≡ length (content l) + (length buf + length (content r))
length-content l buf r =
    omega (arith, length-append (content l) (buf ++ content r), length-append buf (content r))

module _ (index : ℕ) (str xs ys : List ℕ) where
  -- An edit inside the first part leaves the second part alone.
  pub splice-append_left :
      index ≤ length xs → splice index str (xs ++ ys) ≡ splice index str xs ++ ys
  splice-append_left h =
      simp (take-append_le index xs ys h, drop-append_le index xs ys h, append_assoc)

  pub splice-append_right :
      (n : ℕ) → n ≡ length xs + index → splice n str (xs ++ ys) ≡ xs ++ splice index str ys
  splice-append_right n h =
      simp (take-append_ge n index xs ys h, drop-append_ge n index xs ys h, append_assoc)

pub length-splice :
    (index : ℕ) (str xs : List ℕ)
    → index ≤ length xs
    → length (splice index str xs) ≡ length str + length xs
length-splice index str xs h = omega (
  arith,
  length-append (take index xs) (str ++ drop index xs),
  length-append str (drop index xs),
  length-take index xs,
  length-drop index xs,
)

pub nodes_of_bytes : (t : Rep) → 0 < length (content t) → 1 ≤ nodes t
nodes_of_bytes nil h = absurd (omega arith)
nodes_of_bytes (node l lsize p buf r) h = omega arith
