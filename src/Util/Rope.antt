-- ===== src/Util/Rope.antt =====
-- util/rope.h and util/rope.cc: a text in a randomised binary tree of buffers.
-- `nil` is the null pointer. A node's buffer is the list of the `size` bytes in use, and counts of
-- bytes in memory (size_t) are plain numbers. The generator is the stream of the numbers to come.
pub mod Content
mod Balance
mod Spill
pub mod Serve
pub mod Insert
mod Cut
pub mod Erase
pub mod Null
pub mod Copy
mod Edit
mod Tests
use trunk.Prelude.{
  ℕ, zero, suc, ◌+◌, ◌-◌, min, max, List, [], ◌∷◌, ◌++◌, Option, none, some, true, false, ltb, ◌==◌,
  if◌then◌else◌, take, drop, length,
}
use trunk.Prelude.Monad.{◌>>=◌}

pub data Rep : Type 0 where
  nil : Rep
  -- lchild, lsize, priority, buffer, rchild
  node : Rep → ℕ → ℕ → List ℕ → Rep → Rep

abbrev pub Gen : Type 0
Gen = ℕ → ℕ

abbrev pub buffer_size : ℕ
buffer_size = 4096

-- A rotation is called with the child in place; without it the tree stays as it is.
unfoldable pub rotate_left : Rep → Rep
rotate_left (node l lsize p buf (node pl plsize pp pbuf pr)) =
    node (node l lsize p buf pl) (plsize + (lsize + length buf)) pp pbuf pr
rotate_left t = t

unfoldable pub rotate_right : Rep → Rep
rotate_right (node (node pl plsize pp pbuf pr) lsize p buf r) =
    node pl plsize pp pbuf (node pr (lsize - (plsize + length pbuf)) p buf r)
rotate_right t = t

-- The test that `balance_left` makes once the left child is balanced.
unfoldable pub settle_left : Rep → Rep
settle_left (node (node pl plsize pp pbuf pr) lsize p buf r) =
    if ltb p pp
    then rotate_right (node (node pl plsize pp pbuf pr) lsize p buf r)
    else node (node pl plsize pp pbuf pr) lsize p buf r
settle_left t = t

unfoldable pub settle_right : Rep → Rep
settle_right (node l lsize p buf (node pl plsize pp pbuf pr)) =
    if ltb p pp
    then rotate_left (node l lsize p buf (node pl plsize pp pbuf pr))
    else node l lsize p buf (node pl plsize pp pbuf pr)
settle_right t = t

-- At a null child both stop: `settle_left` leaves a node without one alone.
unfoldable pub balance_left : Rep → Rep
balance_left nil = nil
balance_left (node l lsize p buf r) = settle_left (node (balance_left l) lsize p buf r)

unfoldable pub balance_right : Rep → Rep
balance_right nil = nil
balance_right (node l lsize p buf r) = settle_right (node l lsize p buf (balance_right r))

unfoldable pub merge : Rep → Rep → Rep
merge nil rrep = rrep
merge (node l lsize p buf r) nil = node l lsize p buf r
merge (node l lsize p buf r) (node rl rlsize rp rbuf rr) =
    balance_right (node l lsize p buf (merge r (node rl rlsize rp rbuf rr)))

-- `memmove` makes room at `index`, and `memcpy` writes the string there.
abbrev pub splice : ℕ → List ℕ → List ℕ → List ℕ
splice index str xs = take index xs ++ (str ++ drop index xs)

-- The recursive calls of `insert`, handed to the code of one node.
abbrev pub Inserter : Type 0
Inserter = Rep → ℕ → List ℕ → Gen → Option (Rep × Gen)

-- The text goes into this node's buffer; what does not fit goes to the front of the right child.
unfoldable pub fill : Inserter → Rep → ℕ → ℕ → List ℕ → Rep → ℕ → List ℕ → Gen → Option (Rep × Gen)
fill insert l lsize p buf r index str g =
    let size = length str in
    let new_rep_size = max buffer_size (index + size) - size in
    let kept = take new_rep_size buf in
    let new_size = buffer_size - index in
    if ltb buffer_size (length buf + size)
    then (do
      (r1, g1) ← insert r 0 (drop new_rep_size buf) g
      if ltb buffer_size (index + size)
          then (do
            (r2, g2) ← insert r1 0 (drop new_size str) g1
            some (balance_right (node l lsize p (splice index (take new_size str) kept) r2), g2))
          else some (balance_right (node l lsize p (splice index str kept) r1), g1))
    else some (balance_right (node l lsize p (splice index str buf) r), g)

-- `insert` at a node: the left child, the right child, or the buffer.
unfoldable pub place : Inserter → Rep → ℕ → ℕ → List ℕ → Rep → ℕ → List ℕ → Gen → Option (Rep × Gen)
place insert l lsize p buf r index str g =
    if ltb index lsize
    then (do
      (l', g') ← insert l index str g
      some (balance_left (node l' (lsize + length str) p buf r), g'))
    else if ltb (length buf) (index - lsize)
    then (do
      (r', g') ← insert r (index - lsize - length buf) str g
      some (balance_right (node l lsize p buf r'), g'))
    else fill insert l lsize p buf r (index - lsize) str g

-- A null tree becomes an empty node with a priority drawn. `none` is fuel that ran out.
unfoldable pub insert_rep : ℕ → Rep → ℕ → List ℕ → Gen → Option (Rep × Gen)
insert_rep zero t index str g = none
insert_rep (suc fuel) nil index str g =
    place (insert_rep fuel) nil 0 (g 0) [] nil index str (λ i. g (suc i))
insert_rep (suc fuel) (node l lsize p buf r) index str g =
    place (insert_rep fuel) l lsize p buf r index str g

-- The label `out` of `erase`.
unfoldable pub erase_out : Rep → ℕ → ℕ → List ℕ → Rep → Rep
erase_out l lsize p buf r = if length buf == 0 then merge l r else node l lsize p buf r

-- `memmove` closes the gap.
abbrev pub cut : ℕ → ℕ → List ℕ → List ℕ
cut index size xs = take index xs ++ drop (index + size) xs

-- `erase` from the second test on: `index` counts from the front of the buffer.
unfoldable pub erase_rest : (ℕ → ℕ → Option Rep) → Rep → ℕ → ℕ → List ℕ → Rep → ℕ → ℕ → Option Rep
erase_rest erase_rchild l lsize p buf r index size =
    let erase_size = min size (length buf - index) in
    let buf' = cut index erase_size buf in
    if ltb index (length buf)
    then if size - erase_size == 0
      then some (erase_out l lsize p buf' r)
      else (do r' ← erase_rchild 0 (size - erase_size); some (erase_out l lsize p buf' r'))
    else (do r' ← erase_rchild (index - length buf) size; some (erase_out l lsize p buf r'))

-- `none` is a null pointer dereferenced.
unfoldable pub erase_rep : Rep → ℕ → ℕ → Option Rep
erase_rep nil index size = none
erase_rep (node l lsize p buf r) index size =
    let erase_size = min size (lsize - index) in
    if ltb index lsize
    then (do
      l' ← erase_rep l index erase_size
      if size - erase_size == 0
          then some (erase_out l' (lsize - erase_size) p buf r)
          else erase_rest (erase_rep r) l' (lsize - erase_size) p buf r 0 (size - erase_size))
    else erase_rest (erase_rep r) l lsize p buf r (index - lsize) size

-- `copy` from the second test on; the list is what goes to `dest`.
unfoldable pub copy_rest : (ℕ → ℕ → Option (List ℕ)) → List ℕ → ℕ → ℕ → Option (List ℕ)
copy_rest copy_rchild buf index size =
    let get_size = min size (length buf - index) in
    let got = take get_size (drop index buf) in
    if ltb index (length buf)
    then if size - get_size == 0
      then some got
      else (do more ← copy_rchild 0 (size - get_size); some (got ++ more))
    else copy_rchild (index - length buf) size

unfoldable pub copy_rep : Rep → ℕ → ℕ → Option (List ℕ)
copy_rep nil index size = none
copy_rep (node l lsize p buf r) index size =
    let get_size = min size (lsize - index) in
    if ltb index lsize
    then (do
      got ← copy_rep l index get_size
      if size - get_size == 0
          then some got
          else (do more ← copy_rest (copy_rep r) buf 0 (size - get_size); some (got ++ more)))
    else copy_rest (copy_rep r) buf (index - lsize) size

pub record Rope : Type 0 where
  pub rep : Rep
  pub gen : Gen

-- The public methods. `fuel` bounds the depth of the recursion of `insert`.
unfoldable pub insert : ℕ → Rope → ℕ → List ℕ → Option Rope
insert fuel rope index str = do
  (rep, gen) ← insert_rep fuel rope.rep index str rope.gen
  some (record { rep = rep; gen = gen })

unfoldable pub erase : Rope → ℕ → ℕ → Option Rope
erase rope index size = do
  rep ← erase_rep rope.rep index size
  some (record { rep = rep; gen = rope.gen })

unfoldable pub copy : Rope → ℕ → ℕ → Option (List ℕ)
copy rope index size = copy_rep rope.rep index size
