-- ===== src/Types/Float.antt =====
-- The floating-point values of src/types.rs and src/client/router.rs, as IEEE 754 bit patterns:
-- an `f64` is the number that `f64::to_bits` gives, an `f32` that of `f32::to_bits`.
use oxicast.Common.{ℕ, Bool, ◌&&◌, ◌||◌, ltb, leb, if◌then◌else◌}

abbrev pub F64 : Type 0
F64 = ℕ

abbrev pub F32 : Type 0
F32 = ℕ

-- The patterns of positive infinity; the larger ones of the same sign are not numbers.
abbrev f64_infinity : ℕ
f64_infinity = 0x7ff0000000000000

abbrev f32_infinity : ℕ
f32_infinity = 0x7f800000

abbrev pub f64_zero : F64
f64_zero = 0

abbrev pub f64_one : F64
f64_one = 0x3ff0000000000000

abbrev pub f32_zero : F32
f32_zero = 0

abbrev pub f32_one : F32
f32_one = 0x3f800000

-- `d > 0.0`: a positive sign, not zero, and not a NaN.
abbrev pub f64_positive : F64 → Bool
f64_positive d = ltb 0 d && leb d f64_infinity

-- Neither infinite nor a NaN, with either sign.
abbrev pub f64_finite : F64 → Bool
f64_finite d = ltb d f64_infinity || (leb 0x8000000000000000 d && ltb d 0xfff0000000000000)

-- `x < 0.0`: a negative sign, not minus zero, and not a NaN.
abbrev pub f32_negative : F32 → Bool
f32_negative x = ltb 0x80000000 x && leb x 0xff800000

-- `x > 1.0`.
abbrev pub f32_above_one : F32 → Bool
f32_above_one x = ltb f32_one x && leb x f32_infinity

-- `x.clamp(0.0, 1.0)`.
abbrev pub f32_clamp_unit : F32 → F32
f32_clamp_unit x = if f32_negative x then f32_zero else if f32_above_one x then f32_one else x
