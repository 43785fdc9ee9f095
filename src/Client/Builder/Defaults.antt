-- ===== src/Client/Builder/Defaults.antt =====
-- The waiting times of a client with the default settings.
use oxicast.Common.{ℕ, zero, suc, ◌-◌, ◌≤◌, ◌≡◌, String, some, arith}
use oxicast.Client.Backoff.{retry_delay, saturating_pow2, retry_delay_bounds}
use oxicast.Client.Builder.{new}

saturating_pow2_bounds : (n : ℕ) → n ≤ 4 → (1 ≤ saturating_pow2 n) × (saturating_pow2 n ≤ 16)
unfolding saturating_pow2
saturating_pow2_bounds zero h = omega arith
saturating_pow2_bounds (suc zero) h = omega arith
saturating_pow2_bounds (suc (suc zero)) h = omega arith
saturating_pow2_bounds (suc (suc (suc zero))) h = omega arith
saturating_pow2_bounds (suc (suc (suc (suc zero)))) h = omega arith
saturating_pow2_bounds (suc (suc (suc (suc (suc n))))) h = absurd (omega (arith, h))

-- With the default settings, an attempt that is made waits between 1.5 and 40 seconds.
pub retry_delay-new :
    (host : String) (port attempt seed : ℕ)
    → 1 ≤ attempt
    → attempt ≤ (new host port).max_reconnect_attempts
    → (d : ℕ) × (retry_delay (new host port).reconnect_delay attempt seed ≡ some d)
      × (1500000000 ≤ d)
      × (d ≤ 40000000000)
unfolding new
retry_delay-new host port attempt seed h k =
    let (low, high) = saturating_pow2_bounds (attempt - 1) (omega arith) in
    let (d, e, above, below) =
      retry_delay_bounds 2000000000 attempt seed (omega (arith, low, high)) in
    (d, e, omega (arith, low, above), omega (arith, high, below))
