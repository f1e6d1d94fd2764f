-- ===== src/Prelude/Result.antt =====
-- std::error_code: a value, or the code of an error.
use Prim.Native.Nat.{ℕ}

-- The codes that the sources make, and those of the system.
pub data Errc : Type 0 where
  invalid_argument invalid_seek timed_out bad_address operation_canceled : Errc
  no_message no_message_available no_buffer_space bad_message : Errc
  system : ℕ → Errc

pub data Result {ℓ} (A : Type ℓ) : Type ℓ where
  ok : A → Result A
  err : Errc → Result A

infixl 5 ◌>>=◌
abbrev pub ◌>>=◌ {ℓ κ} : {A : Type ℓ} {B : Type κ} → Result A → (A → Result B) → Result B
ok a >>= f = f a
err e >>= f = err e
