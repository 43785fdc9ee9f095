-- ===== src/Client/Backoff.antt =====
-- The waiting time of `spawn_auto_reconnect` in src/client.rs before an attempt. A `Duration` is its
-- number of nanoseconds, and `none` is the panic of `Duration`'s `*` and `+` on overflow.
use native.Mathlib.Nat.{mod-lt, pow-suc}
use oxicast.Common.{
  ℕ, suc, ◌+◌, ◌-◌, ◌*◌, ◌/◌, ◌%◌, ◌^◌, ◌≤◌, ◌<◌, min, ◌≡◌, Option, none, some, lt→ltb, ltb, leb,
  if◌then◌else◌, arith, and_then, inl, inr, Bool-cases, true,
}

abbrev pub millisecond : ℕ
millisecond = 1000000

-- One more than `Duration::MAX`.
abbrev pub duration_limit : ℕ
duration_limit = 18446744073709551616000000000

abbrev pub checked : ℕ → Option ℕ
checked d = if ltb d duration_limit then some d else none

-- `2u32.saturating_pow(n)`.
unfoldable pub saturating_pow2 : ℕ → ℕ
saturating_pow2 n = min (2 ^ n) 4294967295

-- `reconnect_delay * 2u32.saturating_pow(attempt - 1)`.
unfoldable pub base_delay : ℕ → ℕ → Option ℕ
base_delay reconnect_delay attempt = checked (reconnect_delay * saturating_pow2 (attempt - 1))

-- `(base_delay.as_millis() as u64) / 4`.
abbrev pub jitter_range_ms : ℕ → ℕ
jitter_range_ms base = base / millisecond % 2 ^ 64 / 4

-- The offset is `raw - range`, of either sign.
abbrev pub shift : ℕ → ℕ → ℕ → Option ℕ
shift base range raw =
    if leb range raw
    then checked (base + (raw - range) * millisecond)
    else some (base - (range - raw) * millisecond)

unfoldable pub jittered : ℕ → ℕ → Option ℕ
jittered base seed =
    if ltb 0 (jitter_range_ms base)
    then shift base (jitter_range_ms base) (seed % (jitter_range_ms base * 2))
    else some base

unfoldable pub retry_delay : ℕ → ℕ → ℕ → Option ℕ
unfolding base_delay jittered
retry_delay reconnect_delay attempt seed =
    and_then (base_delay reconnect_delay attempt) λ base. jittered base seed

shift_bounds :
    (base range raw d : ℕ)
    → range * 4 * millisecond ≤ base
    → raw < range * 2
    → shift base range raw ≡ some d
    → (3 * base ≤ 4 * d) × (4 * d ≤ 5 * base)
shift_bounds base range raw d h k e = elim (Bool-cases (leb range raw)) [
  | inl up ↦ (ground arith, ground arith)
  | inr down ↦ (ground arith, ground arith)
]

-- The jitter is at most a quarter of the base delay, either way.
pub jittered_bounds :
    (base seed d : ℕ) → jittered base seed ≡ some d → (3 * base ≤ 4 * d) × (4 * d ≤ 5 * base)
unfolding jittered
jittered_bounds base seed d e = elim (Bool-cases (ltb 0 (jitter_range_ms base))) [
  | inl some_jitter ↦
      shift_bounds base (jitter_range_ms base) (seed % (jitter_range_ms base * 2)) d (omega arith)
        (mod-lt seed (ground arith)) (ground arith)
  | inr no_jitter ↦ (ground arith, ground arith)
]

abbrev pub NoOverflow : ℕ → ℕ → Type 0
NoOverflow reconnect_delay attempt =
    5 * (reconnect_delay * saturating_pow2 (attempt - 1)) < 4 * duration_limit

shift_total :
    (base range raw : ℕ)
    → range * 4 * millisecond ≤ base
    → raw < range * 2
    → 5 * base < 4 * duration_limit
    → (d : ℕ) × (shift base range raw ≡ some d)
shift_total base range raw h k room = elim (Bool-cases (leb range raw)) [
  | inl up ↦ (base + (raw - range) * millisecond, ground arith)
  | inr down ↦ (base - (range - raw) * millisecond, ground arith)
]

jittered_total :
    (base seed : ℕ) → 5 * base < 4 * duration_limit → (d : ℕ) × (jittered base seed ≡ some d)
unfolding jittered
jittered_total base seed room = elim (Bool-cases (ltb 0 (jitter_range_ms base))) [
  | inl some_jitter ↦ rw some_jitter (
      shift_total base (jitter_range_ms base) (seed % (jitter_range_ms base * 2)) (omega arith)
        (mod-lt seed (ground arith)) room)
  | inr no_jitter ↦ (base, rw no_jitter)
]

-- If five quarters of `reconnect_delay * 2^(attempt - 1)` fit a `Duration`, where the power stops
-- at 2^32 - 1, the attempt has a waiting time, within a quarter of that product, whatever the seed.
pub retry_delay_bounds :
    (reconnect_delay attempt seed : ℕ)
    → NoOverflow reconnect_delay attempt
    → (d : ℕ) × (retry_delay reconnect_delay attempt seed ≡ some d)
      × (3 * (reconnect_delay * saturating_pow2 (attempt - 1)) ≤ 4 * d)
      × (4 * d ≤ 5 * (reconnect_delay * saturating_pow2 (attempt - 1)))
unfolding retry_delay base_delay
retry_delay_bounds reconnect_delay attempt seed room =
    let base = reconnect_delay * saturating_pow2 (attempt - 1) in
    let (d, e) = jittered_total base seed room in
    let (low, high) = jittered_bounds base seed d e in
    let fits : ltb base duration_limit ≡ true = lt→ltb base duration_limit (omega arith) in
    (d, rw fits e, low, high)

-- The power doubles from one attempt to the next until it stops.
pub saturating_pow2-suc : (n : ℕ) → saturating_pow2 (suc n) ≡ min (2 * saturating_pow2 n) 4294967295
unfolding saturating_pow2
saturating_pow2-suc n = omega (arith, pow-suc 2 n)
