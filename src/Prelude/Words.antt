-- ===== src/Prelude/Words.antt =====
-- 32-bit unsigned words as native numbers; the arithmetic of C and of the `alu` instruction wraps.
use Prim.Native.Nat.{suc, zero, ℕ, ◌+◌, ◌-◌, ◌*◌, ◌/◌, ◌%◌, ◌^◌, ◌<◌}
use mathlib.Core.Path.{◌≡◌}
use mathlib.Core.Bool.{Bool}
use flex_toe.Prelude.Tests.{ltb, leb, if◌then◌else◌}
use native.Mathlib.Omega.{arith}

abbrev pub u32_mod : ℕ
u32_mod = 2 ^ 32

abbrev pub add32 : ℕ → ℕ → ℕ
add32 a b = (a + b) % u32_mod

-- The modulus is added first, since subtraction on ℕ stops at 0.
abbrev pub sub32 : ℕ → ℕ → ℕ
sub32 a b = (a + u32_mod - b) % u32_mod

-- A 16-bit difference.
abbrev pub sub16 : ℕ → ℕ → ℕ
sub16 a b = (a + 2 ^ 16 - b) % 2 ^ 16

pub sub32-add32 : (a b : ℕ) → a < u32_mod → b < u32_mod → sub32 (add32 a b) b ≡ a
sub32-add32 a b ha hb = omega arith

-- 64-bit words.
abbrev pub u64_mod : ℕ
u64_mod = 2 ^ 64

abbrev pub add64 : ℕ → ℕ → ℕ
add64 a b = (a + b) % u64_mod

abbrev pub sub64 : ℕ → ℕ → ℕ
sub64 a b = (a + u64_mod - b) % u64_mod

abbrev pub mul64 : ℕ → ℕ → ℕ
mul64 a b = a * b % u64_mod

abbrev pub mul32 : ℕ → ℕ → ℕ
mul32 a b = a * b % u32_mod

abbrev pub uint32_max : ℕ
uint32_max = 2 ^ 32 - 1

-- Signed numbers by their bit patterns: sign extension, negation, and division, which rounds
-- towards 0, by a positive number.
abbrev pub is_negative64 : ℕ → Bool
is_negative64 x = leb (2 ^ 63) x

abbrev pub sign_extend32 : ℕ → ℕ
sign_extend32 w = if ltb w (2 ^ 31) then w else w + u64_mod - u32_mod

abbrev pub div_signed64 : ℕ → ℕ → ℕ
div_signed64 x n = if is_negative64 x then sub64 0 (sub64 0 x / n) else x / n

-- A number doubled some number of times.
abbrev pub doubled : ℕ → ℕ → ℕ
doubled zero t = t
doubled (suc n) t = doubled n (2 * t)
