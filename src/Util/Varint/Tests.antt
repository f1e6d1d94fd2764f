-- ===== src/Util/Varint/Tests.antt =====
-- Runs of the varint functions, and their theorems at concrete inputs.
use trunk.Prelude.{ℕ, ◌≤◌, ◌≡◌, ◌↔◌, refl, List, [], ◌∷◌, some, length, All, arith}
use trunk.Util.Varint.{append_loop, append_varint, shifted, converted, parse_loop, parse_varint}
use trunk.Util.Varint.{done, failed, undefined}
use trunk.Util.Varint.Parse.{parse-append_u32, parse-append_undefined}
use trunk.Util.Varint.Parse.{parse-failed_iff}

append_86942 : append_varint 86942 (3 ∷ []) ≡ some (3 ∷ 158 ∷ 167 ∷ 5 ∷ [])
unfolding append_varint append_loop
append_86942 = refl

append_270 : append_varint 270 [] ≡ some (142 ∷ 2 ∷ [])
unfolding append_varint append_loop
append_270 = refl

append_wide : append_varint 0x800000000 [] ≡ some (128 ∷ 128 ∷ 128 ∷ 128 ∷ 128 ∷ 1 ∷ [])
unfolding append_varint append_loop
append_wide = refl

parse_270 : parse_varint 32 (142 ∷ 2 ∷ 158 ∷ []) ≡ done 270 (158 ∷ [])
unfolding parse_varint parse_loop shifted converted
parse_270 = refl

-- Into 64 bits, the fifth group of 2^31 reaches the sign bit of the `int`.
parse_sign : parse_varint 64 (128 ∷ 128 ∷ 128 ∷ 128 ∷ 8 ∷ []) ≡ done 0xffffffff80000000 []
unfolding parse_varint parse_loop shifted converted
parse_sign = refl

parse-append_u32_example : parse_varint 32 (142 ∷ 2 ∷ 158 ∷ []) ≡ done 270 (158 ∷ [])
parse-append_u32_example = parse-append_u32 270 (158 ∷ []) (omega arith) append_270

parse-append_undefined_example : parse_varint 64 (128 ∷ 128 ∷ 128 ∷ 128 ∷ 128 ∷ 1 ∷ []) ≡ undefined
parse-append_undefined_example =
    parse-append_undefined 64 0x800000000 [] (omega arith) (omega arith) append_wide

abbrev unended : List ℕ
unended = 158 ∷ 167 ∷ []

parse-failed_iff_example :
    (parse_varint 32 unended ≡ failed) ↔ (All (λ b. 128 ≤ b) unended × (length unended ≤ 5))
parse-failed_iff_example = parse-failed_iff 32 unended (omega arith)
