-- ===== src/Util/Rope/Spill.antt =====
-- The text of a full node after an insertion: part of it moves to the front of the right child.
use trunk.Prelude.{
  ℕ, ◌≤◌, ◌≡◌, ap, ◌∙◌, sym, ◌≡⟨◌⟩◌, ◌∎, List, ◌++◌, take, drop, length, length-take,
  take-append-drop, take_all, drop_all, append_assoc, append-nil, arith,
}
use trunk.Util.Rope.{splice}
use trunk.Util.Rope.Content.{splice-append_left}

module _ (i : ℕ) (str buf rest : List ℕ) where
  -- The string fits beside the `keep` bytes that stay.
  pub spill_tail :
      (keep : ℕ)
      → i ≤ keep
      → keep ≤ length buf
      → splice i str (take keep buf) ++ (drop keep buf ++ rest) ≡ splice i str buf ++ rest
  spill_tail keep h k =
      sym (append_assoc (splice i str (take keep buf)) (drop keep buf) rest)
      ∙ ap (λ t. t ++ rest)
          (sym (splice-append_left i str (take keep buf) (drop keep buf) fits)
            ∙ ap (splice i str) (take-append-drop keep buf))
    where
      fits : i ≤ length (take keep buf)
      fits = omega (arith, length-take keep buf)

  -- The string is cut after `n` bytes; what follows it moves first, then the rest of the string.
  pub spill_both :
      (n : ℕ)
      → splice i (take n str) (take i buf) ++ (drop n str ++ (drop i buf ++ rest))
        ≡ splice i str buf ++ rest
  spill_both n =
      (take i (take i buf) ++ (take n str ++ drop i (take i buf)))
        ++ (drop n str ++ (drop i buf ++ rest))
      ≡⟨ (simp (
        take_all i (take i buf) (omega (arith, length-take i buf)),
        drop_all i (take i buf) (omega (arith, length-take i buf)),
        append-nil,
        append_assoc,
      )) ⟩
        take i buf ++ (take n str ++ (drop n str ++ (drop i buf ++ rest)))
      ≡⟨ ap (λ t. take i buf ++ t)
          (sym (append_assoc (take n str) (drop n str) (drop i buf ++ rest))
            ∙ ap (λ t. t ++ (drop i buf ++ rest)) (take-append-drop n str)) ⟩
        take i buf ++ (str ++ (drop i buf ++ rest))
      ≡⟨ (simp append_assoc) ⟩ splice i str buf ++ rest ∎
