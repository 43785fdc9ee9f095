-- ===== src/Tracker/Spec.antt =====
-- What the tracker promises, without a counter that wraps and without a table: the number of requests
-- so far, a function from ids to the request that waits, and what was delivered.
use oxicast.Common.{
  ℕ, ◌+◌, ◌%◌, ◌^◌, ◌<◌, ◌≡◌, refl, ap, Bool, true, false, Option, none, some, List, [], ◌∷◌, ◌==◌,
  if◌then◌else◌, arith,
}
use mathlib.Core.Path.{ap₂}
use oxicast.Error.{Result, ok, err, disconnected, timeout}
use oxicast.Tracker.{
  Tracker, received, sender_dropped, elapsed, get, new, register, resolve, deliver, forget,
  wait_for, clear, next_id,
}
use oxicast.Tracker.Ids.{next_id_lem, next_id_bounds}
use oxicast.Tracker.Laws.{get-remove, get-insert}
use oxicast.Tracker.Invariant.{Op, registers, resolves, waits_for, clears}

pub record Spec (V : Type 0) : Type 0 where
  pub registered : ℕ
  pub waiting : ℕ → Option ℕ
  pub sent : List (ℕ × V)

-- What a call returns.
pub data Answer (V : Type 0) : Type 0 where
  given : (id channel : ℕ) → Answer V
  found : Bool → Answer V
  waited : Result V → Answer V
  cleared : Answer V

abbrev pub update : ℕ → Option ℕ → (ℕ → Option ℕ) → ℕ → Option ℕ
update id o waiting i = if id == i then o else waiting i

module _ {V : Type 0} where
  -- The n-th request, from 0, has the id `n mod (2^32 - 1) + 1` and the channel n.
  abbrev pub spec_id : Spec V → ℕ
  spec_id m = m.registered % 4294967295 + 1

  abbrev pub spec_deliver : Option ℕ → ℕ → V → Spec V → Answer V × Spec V
  spec_deliver none id v m = (found false, m)
  spec_deliver (some c) id v m =
      (found true, record m { waiting = update id none m.waiting; sent = (c, v) ∷ m.sent })

  abbrev pub spec_forget : ℕ → Spec V → Spec V
  spec_forget id m = record m { waiting = update id none m.waiting }

  unfoldable pub spec_step : Op V → Spec V → Answer V × Spec V
  spec_step registers m = (
    given (spec_id m) m.registered,
    record m {
      registered = m.registered + 1;
      waiting = update (spec_id m) (some m.registered) m.waiting;
    },
  )
  spec_step (resolves id v) m = spec_deliver (m.waiting id) id v m
  spec_step (waits_for limit id (received v)) m = (waited (ok v), m)
  spec_step (waits_for limit id sender_dropped) m = (waited (err disconnected), spec_forget id m)
  spec_step (waits_for limit id elapsed) m = (waited (err (timeout limit)), spec_forget id m)
  spec_step clears m = (cleared, record m { waiting = λ i. none })

  abbrev pub spec_new : Spec V
  spec_new = record { registered = 0; waiting = λ i. none; sent = [] }

  -- The same calls of the tracker.
  unfoldable pub tracker_step : Op V → Tracker V → Answer V × Tracker V
  tracker_step registers t = let (id, c, u) = register t in (given id c, u)
  tracker_step (resolves id v) t = let (b, u) = resolve id v t in (found b, u)
  tracker_step (waits_for limit id o) t = let (r, u) = wait_for limit id o t in (waited r, u)
  tracker_step clears t = (cleared, clear t)

  -- The answers to a sequence of calls, and the state after it.
  unfoldable pub perform :
      {S : Type 0} → (Op V → S → Answer V × S) → List (Op V) → S → List (Answer V) × S
  perform step [] s = ([], s)
  perform step (op ∷ ops) s =
      let (a, t) = step op s in let (answers, u) = perform step ops t in (a ∷ answers, u)

  pub record Refines (t : Tracker V) (m : Spec V) : Type 0 where
    pub bounded : t.counter < 2 ^ 32
    pub same_id : next_id t.counter ≡ spec_id m
    pub same_channel : t.channels ≡ m.registered
    pub same_waiting : (i : ℕ) → get i t.pending ≡ m.waiting i
    pub same_sent : t.sent ≡ m.sent

  new-Refines : Refines new spec_new
  unfolding new get next_id
  new-Refines = record {
    bounded = omega arith;
    same_id = refl;
    same_channel = refl;
    same_waiting = λ i. refl;
    same_sent = refl;
  }

  -- The same answer, and states that still refine.
  abbrev pub Simulates : Answer V × Tracker V → Answer V × Spec V → Type 0
  Simulates (a, t) (b, m) = (a ≡ b) × Refines t m

  register-Simulates :
      (t : Tracker V) (m : Spec V)
      → Refines t m
      → Simulates (tracker_step registers t) (spec_step registers m)
  unfolding tracker_step spec_step register
  register-Simulates t m h = (
    ground (arith, h.same_id, h.same_channel),
    record {
      bounded = (next_id_bounds t.counter h.bounded).1;
      same_id = omega (
        arith,
        h.same_id,
        next_id_lem (next_id t.counter) (next_id_bounds t.counter h.bounded).1,
      );
      same_channel = omega (arith, h.same_channel);
      same_waiting = λ i. ground (
        arith,
        get-insert (next_id t.counter) t.channels i t.pending,
        h.same_waiting i,
        h.same_id,
        h.same_channel,
      );
      same_sent = h.same_sent;
    },
  )

  forget-Refines :
      (id : ℕ) (t : Tracker V) (m : Spec V) → Refines t m → Refines (forget id t) (spec_forget id m)
  unfolding forget
  forget-Refines id t m h = record {
    bounded = h.bounded;
    same_id = h.same_id;
    same_channel = h.same_channel;
    same_waiting = λ i. ground (arith, get-remove id i t.pending, h.same_waiting i);
    same_sent = h.same_sent;
  }

  deliver-Simulates :
      (o : Option ℕ) (id : ℕ) (v : V) (t : Tracker V) (m : Spec V)
      → Refines t m
      → let (b, u) = deliver o id v t in Simulates (found b, u) (spec_deliver o id v m)
  unfolding deliver
  deliver-Simulates none id v t m h = (refl, h)
  deliver-Simulates (some c) id v t m h = (
    refl,
    record {
      bounded = h.bounded;
      same_id = h.same_id;
      same_channel = h.same_channel;
      same_waiting = λ i. ground (arith, get-remove id i t.pending, h.same_waiting i);
      same_sent = ap (◌∷◌ (c, v)) h.same_sent;
    },
  )

  step-Simulates :
      (op : Op V) (t : Tracker V) (m : Spec V)
      → Refines t m
      → Simulates (tracker_step op t) (spec_step op m)
  unfolding tracker_step spec_step resolve wait_for clear get
  step-Simulates registers t m h = register-Simulates t m h
  step-Simulates (resolves id v) t m h =
      rw (← h.same_waiting id) (deliver-Simulates (get id t.pending) id v t m h)
  step-Simulates (waits_for limit id (received v)) t m h = (refl, h)
  step-Simulates (waits_for limit id sender_dropped) t m h = (refl, forget-Refines id t m h)
  step-Simulates (waits_for limit id elapsed) t m h = (refl, forget-Refines id t m h)
  step-Simulates clears t m h = (
    refl,
    record {
      bounded = h.bounded;
      same_id = h.same_id;
      same_channel = h.same_channel;
      same_waiting = λ i. refl;
      same_sent = h.same_sent;
    },
  )

  perform-Refines :
      (ops : List (Op V)) (t : Tracker V) (m : Spec V)
      → Refines t m
      → ((perform tracker_step ops t).0 ≡ (perform spec_step ops m).0)
        × Refines (perform tracker_step ops t).1 (perform spec_step ops m).1
  unfolding perform
  perform-Refines [] t m h = (refl, h)
  perform-Refines (op ∷ ops) t m h =
      let (same, next) = step-Simulates op t m h in
      let (answers, last) = perform-Refines ops (tracker_step op t).1 (spec_step op m).1 next in
      (ap₂ ◌∷◌ same answers, last)

  -- A new tracker refines its specification, which has no wrapping counter and no table, but a
  -- count of requests, a function from ids to channels, and the deliveries: any sequence of calls
  -- gets the same answers from both, and leaves them in states that agree.
  pub perform-new :
      (ops : List (Op V))
      → ((perform tracker_step ops new).0 ≡ (perform spec_step ops spec_new).0)
        × Refines (perform tracker_step ops new).1 (perform spec_step ops spec_new).1
  perform-new ops = perform-Refines ops new spec_new new-Refines
