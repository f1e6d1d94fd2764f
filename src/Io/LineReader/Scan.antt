-- ===== src/Io/LineReader/Scan.antt =====
-- The inner loop of `LineReader::read`, which looks for the delimiter in the buffer.
use trunk.Prelude.{
  ℕ, ◌+◌, ◌≡◌, ◌≢◌, ap, sym, ◌∙◌, List, [], ◌∷◌, ◌++◌, Bool, true, false, ◌==◌, Bool-cases, inl,
  inr, length, All, append-nil, append_assoc, arith,
}
use trunk.Io.LineReader.{scan}

-- No byte of the list is the delimiter.
abbrev pub Free : ℕ → List ℕ → Type 0
Free delimiter xs = All (λ b. b ≢ delimiter) xs

-- What the inner loop does to the bytes from the offset on: it stops behind the first delimiter, or
-- takes them all.
pub record Scanned (delimiter : ℕ) (bytes : List ℕ) (offset : ℕ) (line : List ℕ)
    (r : List ℕ × ℕ × Bool) : Type 0 where
  pub found :
      r.2 ≡ true
      → (front : List ℕ) × (behind : List ℕ) × Free delimiter front
        × (bytes ≡ front ++ (delimiter ∷ behind))
        × (r.0 ≡ line ++ (front ++ (delimiter ∷ [])))
        × (r.1 ≡ offset + (length front + 1))
  pub missed : r.2 ≡ false → Free delimiter bytes × (r.0 ≡ line ++ bytes)

Scanned-here :
    (d b : ℕ) (bs : List ℕ) (offset : ℕ) (line : List ℕ)
    → b ≡ d
    → Scanned d (b ∷ bs) offset line (line ++ (b ∷ []), offset + 1, true)
Scanned-here d b bs offset line e = record {
  found = λ _. ([], bs, tt, ap (λ c. c ∷ bs) e, ap (λ c. line ++ (c ∷ [])) e, omega arith);
  missed = λ x. cc x;
}

Scanned-later :
    (d b : ℕ) (bs : List ℕ) (offset : ℕ) (line : List ℕ) (r : List ℕ × ℕ × Bool)
    → b ≢ d
    → Scanned d bs (offset + 1) (line ++ (b ∷ [])) r
    → Scanned d (b ∷ bs) offset line r
Scanned-later d b bs offset line r ne h = record {
  found = λ x.
      let (front, behind, free, e, el, eo) = h.found x in
      (
        b ∷ front,
        behind,
        (ne, free),
        ap (λ t. b ∷ t) e,
        el ∙ append_assoc line (b ∷ []) (front ++ (d ∷ [])),
        omega arith,
      );
  missed = λ x. let (free, el) = h.missed x in ((ne, free), el ∙ append_assoc line (b ∷ []) bs);
}

pub scan-Scanned :
    (delimiter : ℕ) (bytes : List ℕ) (offset : ℕ) (line : List ℕ)
    → Scanned delimiter bytes offset line (scan delimiter bytes offset line)
unfolding scan
scan-Scanned d [] offset line = record {
  found = λ x. cc x;
  missed = λ _. (tt, sym (append-nil line));
}
scan-Scanned d (b ∷ bs) offset line = elim (Bool-cases (b == d)) [
  | inl e ↦ rw e (Scanned-here d b bs offset line (ground arith))
  | inr e ↦ rw e (
      Scanned-later d b bs offset line _ (ground arith)
        (scan-Scanned d bs (offset + 1) (line ++ (b ∷ []))))
]
