-- ===== src/Tracker/Ids.antt =====
-- The request ids that `register` allocates: their range, and how long they stay distinct.
use oxicast.Common.{ℕ, zero, suc, ◌+◌, ◌%◌, ◌^◌, ◌<◌, ◌≡◌, arith}
use oxicast.Tracker.{Tracker, next_id, register}

-- The ids cycle through the 2^32 - 1 positive values of a `u32`.
pub next_id_lem : (counter : ℕ) → counter < 2 ^ 32 → next_id counter ≡ counter % 4294967295 + 1
unfolding next_id
next_id_lem counter h = ground arith

-- An id is never 0, and fits in a `u32`.
pub next_id_bounds :
    (counter : ℕ) → counter < 2 ^ 32 → (0 < next_id counter) × (next_id counter < 2 ^ 32)
next_id_bounds counter h = omega (arith, next_id_lem counter h)

module _ {V : Type 0} where
  -- The tracker after a number of calls of `register`.
  pub register_many : ℕ → Tracker V → Tracker V
  register_many zero t = t
  register_many (suc n) t = (register (register_many n t)).2

  -- The id of the call that comes after that many.
  pub nth_id : ℕ → Tracker V → ℕ
  nth_id n t = (register (register_many n t)).0

  counter-register_many :
      (n : ℕ) (t : Tracker V)
      → t.counter < 2 ^ 32
      → (register_many (suc n) t).counter ≡ (t.counter + n) % 4294967295 + 1
  unfolding register_many register
  counter-register_many zero t h = omega (arith, next_id_lem t.counter h)
  counter-register_many (suc n) t h =
      let ih = counter-register_many n t h in
      omega (arith, ih, next_id_lem (register_many (suc n) t).counter (omega (arith, ih)))

  nth_id_lem :
      (n : ℕ) (t : Tracker V) → t.counter < 2 ^ 32 → nth_id n t ≡ (t.counter + n) % 4294967295 + 1
  unfolding nth_id register register_many
  nth_id_lem n t h = counter-register_many n t h

  -- From a tracker whose counter is a `u32`, two calls of `register` get the same id exactly when
  -- the number of calls from the one to the other is a multiple of 2^32 - 1.
  pub nth_id-eq_iff :
      (i d : ℕ) (t : Tracker V)
      → t.counter < 2 ^ 32
      → ((nth_id i t ≡ nth_id (i + d) t) → d % 4294967295 ≡ 0)
        × (d % 4294967295 ≡ 0 → nth_id i t ≡ nth_id (i + d) t)
  nth_id-eq_iff i d t h =
      let p = nth_id_lem i t h in
      let q = nth_id_lem (i + d) t h in ((λ e. omega (arith, p, q)), (λ e. omega (arith, p, q)))
