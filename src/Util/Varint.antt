-- ===== src/Util/Varint.antt =====
-- util/varint.h: an unsigned number in groups of seven bits, lowest first.
-- A byte is a number below 256, and a value of the unsigned type T a number below 2 ^ w.
pub mod Groups
pub mod Parse
mod Tests
use trunk.Prelude.{
  ℕ, zero, suc, ◌+◌, ◌-◌, ◌*◌, ◌/◌, ◌%◌, ◌^◌, bit_and, bit_or, List, [], ◌∷◌, ◌++◌, Option, none,
  some, ltb, leb, ◌==◌, if◌then◌else◌,
}

-- The loop of `append_varint`; `none` is fuel that ran out.
unfoldable pub append_loop : ℕ → ℕ → List ℕ → Option (List ℕ)
append_loop zero value output = none
append_loop (suc fuel) value output =
    let cur = bit_and value 0x7f in
    let value' = value / 2 ^ 7 in
    let rest = append_loop fuel value' (output ++ (bit_or cur 0x80 ∷ [])) in
    if value' == 0 then some (output ++ (cur ∷ [])) else rest

-- A type of 64 bits takes ten rounds at most.
unfoldable pub append_varint : ℕ → List ℕ → Option (List ℕ)
append_varint value output = append_loop 10 value output

-- `undefined`: a shift of an `int` by its width or more.
pub data Parsed : Type 0 where
  done : ℕ → List ℕ → Parsed
  failed undefined : Parsed

-- `(cur & 0x7f) << (size * 7)` is an `int`: its bit pattern, for a shift below 32.
unfoldable pub shifted : ℕ → ℕ → ℕ
shifted cur size = bit_and cur 0x7f * 2 ^ (size * 7) % 2 ^ 32

-- An `int`'s bit pattern converted to an unsigned type of `w` bits: cut, or extended by its sign.
unfoldable pub converted : ℕ → ℕ → ℕ
converted w x = if leb w 32 then x % 2 ^ w else if ltb x (2 ^ 31) then x else x + (2 ^ w - 2 ^ 32)

-- The loop of `parse_varint` on the bytes from index `size` on.
unfoldable pub parse_loop : ℕ → List ℕ → ℕ → ℕ → Parsed
parse_loop w [] size result = failed
parse_loop w (cur ∷ input) size result =
    let result' = bit_or result (converted w (shifted cur size)) in
    let more = parse_loop w input (size + 1) result' in
    if leb 32 (size * 7)
    then undefined
    else if bit_and cur 0x80 == 0
    then done result' input
    else more

unfoldable pub parse_varint : ℕ → List ℕ → Parsed
parse_varint w input = parse_loop w input 0 0
