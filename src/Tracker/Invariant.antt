-- ===== src/Tracker/Invariant.antt =====
-- The tracker's invariant over every sequence of operations: ids fit the wire, and no oneshot
-- channel is used twice.
use oxicast.Common.{
  ℕ, ◌+◌, ◌^◌, ◌<◌, ◌≤◌, ◌≡◌, refl, Option, none, some, List, [], ◌∷◌, ◌==◌, if◌then◌else◌, arith,
  All,
}
use oxicast.Tracker.{
  Pending, Tracker, Outcome, received, sender_dropped, elapsed, get, remove, insert, new, register,
  resolve, deliver, forget, wait_for, clear, next_id,
}
use oxicast.Tracker.Ids.{next_id_bounds}

-- How many pending entries hold a channel, and how many values it was given.
pub waits : ℕ → Pending → ℕ
waits c [] = 0
waits c ((k, d) ∷ p) = if c == d then waits c p + 1 else waits c p

pub deliveries {ℓ} : {V : Type ℓ} → ℕ → List (ℕ × V) → ℕ
deliveries c [] = 0
deliveries c ((d, v) ∷ s) = if c == d then deliveries c s + 1 else deliveries c s

-- The ids that the router accepts and that a `u32` holds.
abbrev pub IsRequestId : ℕ × ℕ → Type 0
IsRequestId e = (0 < e.0) × (e.0 < 2 ^ 32)

pub record IsValid {V : Type 0} (t : Tracker V) : Type 0 where
  pub counter_bound : t.counter < 2 ^ 32
  pub ids : All IsRequestId t.pending
  pub once : (c : ℕ) → waits c t.pending + deliveries c t.sent ≤ 1
  pub fresh : (c : ℕ) → t.channels ≤ c → waits c t.pending + deliveries c t.sent ≡ 0

waits-remove : (c id : ℕ) (p : Pending) → waits c (remove id p) ≤ waits c p
unfolding waits remove
waits-remove c id [] = omega arith
waits-remove c id ((k, d) ∷ p) = ground (arith, waits-remove c id p)

waits-remove_get :
    (c id : ℕ) (p : Pending) → get id p ≡ some c → waits c (remove id p) + 1 ≤ waits c p
unfolding waits remove get
waits-remove_get c id [] e = cc
waits-remove_get c id ((k, d) ∷ p) e = ground (arith, waits-remove_get c id p, waits-remove c id p)

All-remove : (id : ℕ) (p : Pending) → All IsRequestId p → All IsRequestId (remove id p)
unfolding remove
All-remove id [] h = tt
All-remove id ((k, c) ∷ p) h = ground (arith, All-remove id p h.1)

-- A call of the tracker.
pub data Op (V : Type 0) : Type 0 where
  registers : Op V
  resolves : ℕ → V → Op V
  waits_for : (limit id : ℕ) → Outcome V → Op V
  clears : Op V

module _ {V : Type 0} where
  pub new-IsValid : IsValid {V = V} new
  unfolding new waits deliveries
  new-IsValid = record {
    counter_bound = omega arith;
    ids = tt;
    once = λ c. omega arith;
    fresh = λ c h. refl;
  }

  register-IsValid : (t : Tracker V) → IsValid t → IsValid (register t).2
  unfolding register insert waits
  register-IsValid t v = record {
    counter_bound = (next_id_bounds t.counter v.counter_bound).1;
    ids = (next_id_bounds t.counter v.counter_bound, All-remove _ t.pending v.ids);
    once = λ c. ground (arith, v.once c, v.fresh c, waits-remove c (next_id t.counter) t.pending);
    fresh = λ c h. ground (arith, v.fresh c, waits-remove c (next_id t.counter) t.pending);
  }

  deliver-IsValid :
      (o : Option ℕ) (id : ℕ) (payload : V) (t : Tracker V)
      → get id t.pending ≡ o
      → IsValid t
      → IsValid (deliver o id payload t).1
  unfolding deliver deliveries
  deliver-IsValid none id payload t e v = v
  deliver-IsValid (some d) id payload t e v = record {
    counter_bound = v.counter_bound;
    ids = All-remove id t.pending v.ids;
    once = λ c.
        ground (arith, v.once c, waits-remove c id t.pending, waits-remove_get d id t.pending e);
    fresh = λ c h.
        ground (arith, v.fresh c h, waits-remove c id t.pending, waits-remove_get d id t.pending e);
  }

  forget-IsValid : (id : ℕ) (t : Tracker V) → IsValid t → IsValid (forget id t)
  unfolding forget
  forget-IsValid id t v = record {
    counter_bound = v.counter_bound;
    ids = All-remove id t.pending v.ids;
    once = λ c. omega (arith, v.once c, waits-remove c id t.pending);
    fresh = λ c h. omega (arith, v.fresh c h, waits-remove c id t.pending);
  }

  unfoldable pub apply_op : Op V → Tracker V → Tracker V
  apply_op registers t = (register t).2
  apply_op (resolves id v) t = (resolve id v t).1
  apply_op (waits_for limit id o) t = (wait_for limit id o t).1
  apply_op clears t = clear t

  pub apply_op-IsValid : (op : Op V) (t : Tracker V) → IsValid t → IsValid (apply_op op t)
  unfolding apply_op resolve wait_for clear waits
  apply_op-IsValid registers t v = register-IsValid t v
  apply_op-IsValid (resolves id payload) t v =
      deliver-IsValid (get id t.pending) id payload t refl v
  apply_op-IsValid (waits_for limit id (received payload)) t v = v
  apply_op-IsValid (waits_for limit id sender_dropped) t v = forget-IsValid id t v
  apply_op-IsValid (waits_for limit id elapsed) t v = forget-IsValid id t v
  apply_op-IsValid clears t v = record {
    counter_bound = v.counter_bound;
    ids = tt;
    once = λ c. omega (arith, v.once c);
    fresh = λ c h. omega (arith, v.fresh c h);
  }

  unfoldable pub apply_ops : List (Op V) → Tracker V → Tracker V
  apply_ops [] t = t
  apply_ops (op ∷ ops) t = apply_ops ops (apply_op op t)

  -- A valid tracker stays valid under its operations in any order: the counter is a `u32`, pending
  -- ids are positive `u32`s, each channel waits or was answered at most once in all, and those not
  -- yet created did neither.
  pub apply_ops-IsValid :
      (ops : List (Op V)) (t : Tracker V) → IsValid t → IsValid (apply_ops ops t)
  unfolding apply_ops
  apply_ops-IsValid [] t v = v
  apply_ops-IsValid (op ∷ ops) t v = apply_ops-IsValid ops (apply_op op t) (apply_op-IsValid op t v)
