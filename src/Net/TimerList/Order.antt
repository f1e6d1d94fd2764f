-- ===== src/Net/TimerList/Order.antt =====
-- The entries in the order of their expiries, and what the operations on the list do to it.
use trunk.Prelude.{
  All-map, ℕ, ◌≤◌, ◌<◌, ◌≡◌, refl, ap, List, [], ◌∷◌, ◌++◌, true, false, leb, ◌==◌, if◌then◌else◌,
  Bool-cases, All, tests, arith, inl, inr,
}
use trunk.Net.TimerList.{Entry, remove, fire}

abbrev pub IsSorted : List Entry → Type 0
IsSorted [] = Unit
IsSorted (e ∷ es) = All (λ e'. e.expiry ≤ e'.expiry) es × IsSorted es

abbrev pub timers : List Entry → List ℕ
timers [] = []
timers (e ∷ es) = e.timer ∷ timers es

pub All-snoc :
    (P : Entry → Type 0) (es : List Entry) (x : Entry) → All P es → P x → All P (es ++ (x ∷ []))
All-snoc P [] x all p = (p, tt)
All-snoc P (e ∷ es) x (q, all) p = (q, All-snoc P es x all p)

pub IsSorted-snoc :
    (es : List Entry) (x : Entry)
    → All (λ e. e.expiry ≤ x.expiry) es
    → IsSorted es
    → IsSorted (es ++ (x ∷ []))
IsSorted-snoc [] x all s = (tt, tt)
IsSorted-snoc (e ∷ es) x (h, all) (front, s) =
    (All-snoc (λ e'. e.expiry ≤ e'.expiry) es x front h, IsSorted-snoc es x all s)

pub All-remove :
    (P : Entry → Type 0) (timer : ℕ) (es : List Entry) → All P es → All P (remove timer es)
unfolding remove
All-remove P timer [] all = tt
All-remove P timer (e ∷ es) (p, all) =
    elim (e.timer == timer) as (λ b. All P (if b then es else e ∷ remove timer es)) [
      | true ↦ all
      | false ↦ (p, All-remove P timer es all)
    ]

pub remove-IsSorted : (timer : ℕ) (es : List Entry) → IsSorted es → IsSorted (remove timer es)
unfolding remove
remove-IsSorted timer [] s = tt
remove-IsSorted timer (e ∷ es) (front, s) =
    elim (e.timer == timer) as (λ b. IsSorted (if b then es else e ∷ remove timer es)) [
      | true ↦ s
      | false ↦ (All-remove (λ e'. e.expiry ≤ e'.expiry) timer es front, remove-IsSorted timer es s)
    ]

-- What the loop of the handler takes off the front, and what it leaves.
pub record Fired (expiry : ℕ) (es : List Entry) (r : List ℕ × List Entry) : Type 0 where
  pub taken : List Entry
  pub split : es ≡ taken ++ r.1
  pub names : r.0 ≡ timers taken
  pub due : All (λ e. e.expiry ≤ expiry) taken
  pub later : All (λ e. expiry < e.expiry) r.1
  pub sorted : IsSorted r.1

pub fire-Fired : (expiry : ℕ) (es : List Entry) → IsSorted es → Fired expiry es (fire expiry es)
unfolding fire
fire-Fired expiry [] s = record {
  taken = [];
  split = refl;
  names = refl;
  due = tt;
  later = tt;
  sorted = tt;
}
fire-Fired expiry (e ∷ es) (front, s) = elim (Bool-cases (leb e.expiry expiry)) [
  | inl h ↦
      let t = fire-Fired expiry es s in
      rw h (record {
        taken = e ∷ t.taken;
        split = ap (λ k. e ∷ k) t.split;
        names = ap (λ k. e.timer ∷ k) t.names;
        due = (omega tests, t.due);
        later = t.later;
        sorted = t.sorted;
      })
  | inr h ↦
      let h' : expiry < e.expiry = ground arith in
      rw h (record {
        taken = [];
        split = refl;
        names = refl;
        due = tt;
        later = (
          h',
          All-map (λ e'. e.expiry ≤ e'.expiry) (λ e'. expiry < e'.expiry) es (λ e' k. omega arith)
              front,
        );
        sorted = (front, s);
      })
]
