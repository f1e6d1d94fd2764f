-- ===== src/Util/FibonacciSequence.antt =====
-- util/fibonacci-sequence.h: two neighbours of the Fibonacci sequence, in a type of integers whose
-- values lie below a limit. `none` is a sum out of range, which C++ leaves undefined for signed types
-- such as the `int` of the client of net/rpc/.
use trunk.Prelude.{ℕ, ◌+◌, Option, none, some, ltb, if◌then◌else◌}

pub record FibonacciSequence : Type 0 where
  pub a : ℕ
  pub b : ℕ

unfoldable pub reset : FibonacciSequence
reset = record { a = 1; b = 1 }

unfoldable pub next : ℕ → FibonacciSequence → Option FibonacciSequence
next limit s = if ltb (s.b + s.a) limit then some (record { a = s.b; b = s.b + s.a }) else none
