-- ===== src/Util/Rope/Tests.antt =====
-- Runs of the rope's methods, and the theorems at concrete inputs.
use trunk.Prelude.{ℕ, ◌+◌, ◌≡◌, refl, List, [], ◌∷◌, Option, none, some, replicate, arith}
use trunk.Util.Rope.{Rep, nil, node, Gen, rotate_left, settle_right}
use trunk.Util.Rope.{balance_right, merge, fill, place, insert_rep, erase_out}
use trunk.Util.Rope.{erase_rest, erase_rep, copy_rest, copy_rep, Rope, insert, erase, copy}
use trunk.Util.Rope.Content.{text, IsValid}
use trunk.Util.Rope.Serve.{insert_lem}
use trunk.Util.Rope.Erase.{erase_lem}
use trunk.Util.Rope.Null.{erase-null}
use trunk.Util.Rope.Copy.{copy_lem}

abbrev gen : Gen
gen i = i

abbrev empty : Rope
empty = record { rep = nil; gen = gen }

-- Three nodes: "ab", "cd", "e".
abbrev letters : Rope
letters = record {
  rep = node (node nil 0 3 (97 ∷ 98 ∷ []) nil) 2 9 (99 ∷ 100 ∷ []) (node nil 0 5 (101 ∷ []) nil);
  gen = gen;
}

letters-IsValid : IsValid letters
letters-IsValid = omega arith

copy_across : copy letters 1 3 ≡ some (98 ∷ 99 ∷ 100 ∷ [])
unfolding copy copy_rep copy_rest
copy_across = refl

-- "xy" goes into the node at the root, whose child of priority 5 stays below it.
abbrev abcxyde : List ℕ
abcxyde = 97 ∷ 98 ∷ 99 ∷ 120 ∷ 121 ∷ 100 ∷ 101 ∷ []

abbrev edited : Rope
edited = record {
  rep =
      node (node nil 0 3 (97 ∷ 98 ∷ []) nil) 2 9 (99 ∷ 120 ∷ 121 ∷ 100 ∷ [])
        (node nil 0 5 (101 ∷ []) nil);
  gen = gen;
}

insert_xy : insert 20 letters 3 (120 ∷ 121 ∷ []) ≡ some edited
unfolding insert insert_rep place fill balance_right settle_right
insert_xy = refl

-- A buffer that is used up leaves the tree.
erase_e :
    erase letters 4 1
    ≡ some
        (record { rep = node (node nil 0 3 (97 ∷ 98 ∷ []) nil) 2 9 (99 ∷ 100 ∷ []) nil; gen = gen })
unfolding erase erase_rep erase_rest erase_out merge
erase_e = refl

insert_lem_example :
    (rope' : Rope) × (insert 20 letters 3 (120 ∷ 121 ∷ []) ≡ some rope')
    × IsValid rope'
    × (text rope' ≡ abcxyde)
insert_lem_example =
    insert_lem 20 letters 3 (120 ∷ 121 ∷ []) letters-IsValid (omega arith) (omega arith)

erase_lem_example :
    (rope' : Rope) × (erase letters 1 3 ≡ some rope') × IsValid rope' × (text rope' ≡ 97 ∷ 101 ∷ [])
erase_lem_example = erase_lem letters 1 3 letters-IsValid (omega arith)

erase-null_example : erase letters 5 0 ≡ none
erase-null_example = erase-null letters 5 0 letters-IsValid (λ h. absurd (omega arith))

copy_lem_example : copy letters 1 3 ≡ some (98 ∷ 99 ∷ 100 ∷ [])
copy_lem_example = copy_lem letters 1 3 letters-IsValid

-- The priorities of a tree, lchild, node, rchild, without the texts.
data Shape : Type 0 where
  tip : Shape
  fork : Shape → ℕ → Shape → Shape

shape : Rep → Shape
shape nil = tip
shape (node l lsize p buf r) = fork (shape l) p (shape r)

shape_after : Option Rope → Shape
unfolding shape
shape_after none = tip
shape_after (some rope) = shape rope.rep

-- A node of priority 5 with a full buffer.
abbrev full : Rope
full = record { rep = node nil 0 5 (replicate 4096 0) nil; gen = λ i. 9 + i + i }

-- One insertion that makes two nodes loses the order of a heap: the priorities drawn are 9 and 11,
-- and the node of priority 9 ends below that of priority 5.
heap_order_lost :
    shape_after (insert 20000 full 0 (replicate 4097 1)) ≡ fork (fork tip 5 (fork tip 9 tip)) 11 tip
unfolding shape_after insert insert_rep place fill balance_right settle_right rotate_left
heap_order_lost = refl
