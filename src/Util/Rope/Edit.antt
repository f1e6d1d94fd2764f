-- ===== src/Util/Rope/Edit.antt =====
-- The public methods of `Rope` one after the other.
use trunk.Prelude.{
  ℕ, ◌+◌, ◌*◌, ◌≤◌, ◌<◌, ◌≡◌, ap, ap₂, sym, ◌∙◌, List, ◌++◌, some, take, drop, length, length-take,
  drop-drop, take-append_ge, drop-append_ge, append-nil, take-append-drop, arith,
}
use trunk.Util.Rope.{Rope, insert, erase, copy, splice}
use trunk.Util.Rope.Content.{nodes, text, IsValid, length-splice}
use trunk.Util.Rope.Serve.{insert_lem}
use trunk.Util.Rope.Erase.{erase_lem}
use trunk.Util.Rope.Copy.{copy_lem}

-- What stands behind the front of a spliced text.
drop-splice :
    (i : ℕ) (str xs : List ℕ) → i ≤ length xs → drop i (splice i str xs) ≡ str ++ drop i xs
drop-splice i str xs h =
    drop-append_ge i 0 (take i xs) (str ++ drop i xs) (omega (arith, length-take i xs))

take-splice : (i : ℕ) (str xs : List ℕ) → i ≤ length xs → take i (splice i str xs) ≡ take i xs
take-splice i str xs h =
    take-append_ge i 0 (take i xs) (str ++ drop i xs) (omega (arith, length-take i xs))
    ∙ append-nil (take i xs)

inserted :
    (fuel : ℕ) (rope rope' : Rope) (index : ℕ) (str : List ℕ)
    → IsValid rope
    → index ≤ length (text rope)
    → nodes rope.rep + length (text rope) + 2 * length str < fuel
    → insert fuel rope index str ≡ some rope'
    → IsValid rope' × (text rope' ≡ splice index str (text rope))
inserted fuel rope rope' index str wf h b e =
    let (r, e', wf', same) = insert_lem fuel rope index str wf h b in
    let is : rope' ≡ r = cc (e, e') in rw is (wf', same)

copy_inside :
    (rope : Rope) (index size : ℕ) (xs : List ℕ)
    → IsValid rope
    → text rope ≡ xs
    → index < length xs
    → index + size ≤ length xs
    → copy rope index size ≡ some (take size (drop index xs))
copy_inside rope index size xs wf e h k = rw (← e) (ground (arith, copy_lem rope index size wf, e))

-- A string that is not empty, put into a well-formed rope at an index within its text, is read back
-- by `copy` from that index and of that length.
copy-insert :
    (fuel : ℕ) (rope rope' : Rope) (index : ℕ) (str : List ℕ)
    → IsValid rope
    → index ≤ length (text rope)
    → nodes rope.rep + length (text rope) + 2 * length str < fuel
    → 0 < length str
    → insert fuel rope index str ≡ some rope'
    → copy rope' index (length str) ≡ some str
copy-insert fuel rope rope' index str wf h b pos e =
    let (wf', same) = inserted fuel rope rope' index str wf h b e in
    let long = length-splice index str (text rope) h in
    copy_inside rope' index (length str) _ wf' same (omega (arith, long)) (omega (arith, long))
    ∙ ap some (
        ap (take (length str)) (drop-splice index str (text rope) h)
        ∙ take-append_ge (length str) 0 str (drop index (text rope)) (omega arith)
        ∙ append-nil str)

-- Erasing a string that is not empty, just where `insert` has put it, gives a well-formed rope of
-- the text that was there before.
erase-insert :
    (fuel : ℕ) (rope rope' : Rope) (index : ℕ) (str : List ℕ)
    → IsValid rope
    → index ≤ length (text rope)
    → nodes rope.rep + length (text rope) + 2 * length str < fuel
    → 0 < length str
    → insert fuel rope index str ≡ some rope'
    → (rope'' : Rope) × (erase rope' index (length str) ≡ some rope'')
      × IsValid rope''
      × (text rope'' ≡ text rope)
erase-insert fuel rope rope' index str wf h b pos e =
    let (wf', same) = inserted fuel rope rope' index str wf h b e in
    let long = ap (λ xs. length xs) same ∙ length-splice index str (text rope) h in
    let (rope'', e', wf'', erased) = erase_lem rope' index (length str) wf' (omega (arith, long)) in
    (rope'', e', wf'', erased ∙ rw same back)
  where
    back :
        take index (splice index str (text rope))
          ++ drop (index + length str) (splice index str (text rope))
        ≡ text rope
    back =
        ap₂ ◌++◌ (take-splice index str (text rope) h) (
          sym (drop-drop (length str) index (splice index str (text rope)))
          ∙ ap (drop (length str)) (drop-splice index str (text rope) h)
          ∙ drop-append_ge (length str) 0 str (drop index (text rope)) (omega arith))
        ∙ take-append-drop index (text rope)
