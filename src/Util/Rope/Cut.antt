-- ===== src/Util/Rope/Cut.antt =====
-- What `memmove` leaves of a text that one of its parts is cut out of.
use trunk.Prelude.{
  ℕ, ◌+◌, ◌-◌, ◌≤◌, ◌≡◌, ap, ap₂, ◌∙◌, sym, List, ◌++◌, take, drop, length, length-append,
  length-take, length-drop, drop_all, take-append_le, drop-append_le, take-append_ge,
  drop-append_ge, append_assoc, append-nil, arith,
}
use trunk.Util.Rope.{cut}

module _ (i n : ℕ) (xs ys : List ℕ) where
  pub cut-append_left : i + n ≤ length xs → cut i n (xs ++ ys) ≡ cut i n xs ++ ys
  cut-append_left h =
      simp (take-append_le i xs ys (omega arith), drop-append_le (i + n) xs ys h, append_assoc)

  pub cut-append_right : (j : ℕ) → i ≡ length xs + j → cut i n (xs ++ ys) ≡ xs ++ cut j n ys
  cut-append_right j h =
      simp (
        take-append_ge i j xs ys h,
        drop-append_ge (i + n) (j + n) xs ys (omega arith),
        append_assoc,
      )

  pub cut-append_across :
      (k m : ℕ) → i + k ≡ length xs → n ≡ k + m → cut i n (xs ++ ys) ≡ cut i k xs ++ cut 0 m ys
  cut-append_across k m hk hm = ap₂ ◌++◌ first second
    where
      first : take i (xs ++ ys) ≡ cut i k xs
      first =
          take-append_le i xs ys (omega arith)
          ∙ sym (append-nil (take i xs))
          ∙ ap (λ t. take i xs ++ t) (sym (drop_all (i + k) xs (omega arith)))

      second : drop (i + n) (xs ++ ys) ≡ cut 0 m ys
      second = drop-append_ge (i + n) m xs ys (omega arith) ∙ ap (λ j. drop j ys) zero_add
        where
          zero_add : m ≡ 0 + m
          zero_add = omega arith

pub length-cut : (i n : ℕ) (xs : List ℕ) → i + n ≤ length xs → length (cut i n xs) ≡ length xs - n
length-cut i n xs h =
    omega
      (arith, length-append (take i xs) (drop (i + n) xs), length-take i xs, length-drop (i + n) xs)
