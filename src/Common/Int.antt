-- ===== src/Common/Int.antt =====
-- Signed integers, and the casts of the machine's `i32` and `u32`.
use Prim.Native.Nat.{ℕ, ◌-◌, ◌%◌, ◌^◌, ◌<◌}
use mathlib.Core.Path.{◌≡◌}
use mathlib.Core.Bool.{Bool, false}
use native.Mathlib.Omega.{arith}
use oxicast.Common.Tests.{ltb, if◌then◌else◌}

-- `negsuc n` is -(n + 1).
pub data ℤ : Type 0 where
  pos : ℕ → ℤ
  negsuc : ℕ → ℤ

abbrev pub is_positive : ℤ → Bool
is_positive (pos n) = ltb 0 n
is_positive (negsuc n) = false

-- `x as u32`, of a `u64`.
abbrev pub as_u32 : ℕ → ℕ
as_u32 n = n % 2 ^ 32

abbrev as_signed_32 : ℕ → ℤ
as_signed_32 n = if ltb n (2 ^ 31) then pos n else negsuc (2 ^ 32 - 1 - n)

-- `x as i32`, of an `i64`.
abbrev pub as_i32 : ℤ → ℤ
as_i32 (pos n) = as_signed_32 (n % 2 ^ 32)
as_i32 (negsuc n) = as_signed_32 (2 ^ 32 - 1 - n % 2 ^ 32)

-- The values of the type `i32`.
abbrev pub IsI32 : ℤ → Type 0
IsI32 (pos n) = n < 2 ^ 31
IsI32 (negsuc n) = n < 2 ^ 31

pub as_i32_of_IsI32 : (z : ℤ) → IsI32 z → as_i32 z ≡ z
as_i32_of_IsI32 (pos n) h = ground arith
as_i32_of_IsI32 (negsuc n) h = ground arith
