-- ===== src/Prelude/Monad.antt =====
-- Chains of steps that may fail.
use mathlib.Core.Path.{◌≡◌, refl}
use mathlib.Core.Option.{Option, none, some}

infixl 5 ◌>>=◌ ◌>>◌
abbrev pub ◌>>=◌ {ℓ κ} : {A : Type ℓ} {B : Type κ} → Option A → (A → Option B) → Option B
none >>= f = none
some a >>= f = f a

abbrev pub ◌>>◌ {ℓ κ} : {A : Type ℓ} {B : Type κ} → Option A → Option B → Option B
none >> k = none
some a >> k = k

-- A chain of two that ends well.
pub bind_some {ℓ ℓ'} :
    {A : Type ℓ} {B : Type ℓ'} (r : Option A) (f : A → B) (b : B)
    → (do a ← r; some (f a)) ≡ some b
    → (a : A) × (r ≡ some a) × (f a ≡ b)
bind_some none f b e = absurd (cc e)
bind_some (some a) f b e = (a, refl, cc e)
