-- ===== src/Prelude/Words.antt =====
-- The conversions of the C code to `uint32_t` and its addition of `int32_t` values, written out.
use Prim.Native.Nat.{ℕ, ◌+◌, ◌-◌, ◌%◌, ◌^◌}
use psdk_orangepi.Prelude.Tests.{ltb, if◌then◌else◌}
use psdk_orangepi.Prelude.Int.{ℤ, pos, negsuc, ◌+ℤ◌, ◌≤ℤ◌}
use mathlib.Core.Path.{◌≡◌}
use native.Mathlib.Omega.{arith}

-- `(uint32_t)` of a signed integer.
unfoldable pub to_u32 : ℤ → ℕ
to_u32 (pos n) = n % 2 ^ 32
to_u32 (negsuc n) = 2 ^ 32 - 1 - n % 2 ^ 32

-- The number that a bit pattern of an `int32_t` stands for.
abbrev pub signed_32 : ℕ → ℤ
signed_32 w = if ltb w (2 ^ 31) then pos w else negsuc (2 ^ 32 - 1 - w)

-- `a + b` of two `int32_t` values, which wraps around. C leaves an overflow undefined; what is proved of
-- a sum has its range as a hypothesis.
unfoldable pub add_i32 : ℤ → ℤ → ℤ
unfolding to_u32
add_i32 a b = signed_32 ((to_u32 a + to_u32 b) % 2 ^ 32)

abbrev pub IsI32 : ℤ → Type 0
IsI32 z = (negsuc (2 ^ 31 - 1) ≤ℤ z) × (z ≤ℤ pos (2 ^ 31 - 1))

-- Where the sum fits, it is the sum of the integers.
pub add_i32_fits : (a b : ℤ) → IsI32 a → IsI32 b → IsI32 (a +ℤ b) → add_i32 a b ≡ a +ℤ b
unfolding add_i32 to_u32 ◌+ℤ◌
add_i32_fits (pos a) (pos b) ha hb h = ground (arith, ha.0, ha.1, hb.0, hb.1, h.0, h.1)
add_i32_fits (pos a) (negsuc b) ha hb h = ground (arith, ha.0, ha.1, hb.0, hb.1, h.0, h.1)
add_i32_fits (negsuc a) (pos b) ha hb h = ground (arith, ha.0, ha.1, hb.0, hb.1, h.0, h.1)
add_i32_fits (negsuc a) (negsuc b) ha hb h = ground (arith, ha.0, ha.1, hb.0, hb.1, h.0, h.1)
