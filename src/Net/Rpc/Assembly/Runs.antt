-- ===== src/Net/Rpc/Assembly/Runs.antt =====
-- A set of numbers as its test, to run the code that has an interval set as a parameter.
use trunk.Prelude.{
  ℕ, zero, suc, ◌+◌, ◌-◌, ◌≤◌, ◌<◌, ◌≡◌, ◌↔◌, refl, Bool, true, false, ◌&&◌, ◌||◌, ltb, leb, ◌==◌,
  subst, sym, Bool-cases, inl, inr, arith,
}
use trunk.Net.Rpc.Assembly.{IntervalSet}

-- Whether `n` numbers from `lo` on are in a set.
abbrev pub run : (ℕ → Bool) → ℕ → ℕ → Bool
run s lo zero = true
run s lo (suc n) = elim (s lo) [ true ↦ run s (suc lo) n | false ↦ false ]

run_member :
    (s : ℕ → Bool) (lo n : ℕ) → run s lo n ≡ true → (i : ℕ) → lo ≤ i → i < lo + n → s i ≡ true
run_member s lo zero e i l h = absurd (omega arith)
run_member s lo (suc n) e i l h = elim (Bool-cases (s lo)) [
  | inl here ↦
      let later : run s (suc lo) n ≡ true =
        subst (λ b. elim b as (λ _. Bool) [ true ↦ run s (suc lo) n | false ↦ false ] ≡ true) here
          e in
      elim (Bool-cases (lo == i)) [
        | inl at ↦ subst (λ k. s k ≡ true) (ground arith) here
        | inr past ↦ run_member s (suc lo) n later i (ground arith) (omega arith)
      ]
  | inr out ↦
      let no : false ≡ true =
        subst (λ b. elim b as (λ _. Bool) [ true ↦ run s (suc lo) n | false ↦ false ] ≡ true) out
          e in
      absurd (cc no)
]

member_run :
    (s : ℕ → Bool) (lo n : ℕ) → ((i : ℕ) → lo ≤ i → i < lo + n → s i ≡ true) → run s lo n ≡ true
member_run s lo zero all = refl
member_run s lo (suc n) all =
    subst (λ b. elim b as (λ _. Bool) [ true ↦ run s (suc lo) n | false ↦ false ] ≡ true)
      (sym (all lo (omega arith) (omega arith)))
      (member_run s (suc lo) n (λ i l h. all i (omega arith) (omega arith)))

pub run_iff :
    (s : ℕ → Bool) (lo hi : ℕ)
    → (run s lo (hi - lo) ≡ true) ↔ ((i : ℕ) → lo ≤ i → i < hi → s i ≡ true)
run_iff s lo hi = (
  λ e i l h. run_member s lo (hi - lo) e i l (omega arith),
  λ all. member_run s lo (hi - lo) (λ i l h. all i l (omega arith)),
)

abbrev pub runs : IntervalSet
runs = record {
  Set = ℕ → Bool;
  empty = λ i. false;
  add = λ s lo hi i. s i || (leb lo i && ltb i hi);
  contains = λ s lo hi. run s lo (hi - lo);
  member = λ s i. s i;
  member-empty = λ i. refl;
  member-add = λ s lo hi i. refl;
  contains_iff = run_iff;
}
