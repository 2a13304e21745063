-- ===== src/Prelude/Word.antt =====
-- Unsigned words as numbers below a power of two, and `int32_t` as an integer.
use Prim.Native.Nat.{ℕ, ◌+◌, ◌-◌, ◌%◌, ◌^◌, ◌<◌}
use mathlib.Core.Path.{◌≡◌}
use mathlib.Core.Bool.{Bool, true, false}
use native.Mathlib.Omega.{arith}
use mergeshare.Prelude.Tests.{ltb, if◌then◌else◌}

abbrev pub u32_mod : ℕ
u32_mod = 2 ^ 32

abbrev pub u64_mod : ℕ
u64_mod = 2 ^ 64

-- `UINT64_MAX`
abbrev pub u64_max : ℕ
u64_max = 2 ^ 64 - 1

abbrev pub add32 : ℕ → ℕ → ℕ
add32 a b = (a + b) % u32_mod

abbrev pub sub32 : ℕ → ℕ → ℕ
sub32 a b = (a + u32_mod - b) % u32_mod

abbrev pub add64 : ℕ → ℕ → ℕ
add64 a b = (a + b) % u64_mod

abbrev pub sub64 : ℕ → ℕ → ℕ
sub64 a b = (a + u64_mod - b) % u64_mod

-- `negsuc n` is -(n + 1).
pub data ℤ : Type 0 where
  pos : ℕ → ℤ
  negsuc : ℕ → ℤ

abbrev pub minus_one : ℤ
minus_one = negsuc 0

abbrev pub is_negative : ℤ → Bool
is_negative (pos n) = false
is_negative (negsuc n) = true

-- `static_cast<int32_t>`
abbrev pub to_i32 : ℕ → ℤ
to_i32 n = let w = n % u32_mod in if ltb w (2 ^ 31) then pos w else negsuc (u32_mod - w - 1)

-- A number that fits in an `int32_t` keeps its value.
pub to_i32-pos : (n : ℕ) → n < 2 ^ 31 → to_i32 n ≡ pos n
to_i32-pos n h = ground arith
