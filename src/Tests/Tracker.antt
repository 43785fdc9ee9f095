-- ===== src/Tests/Tracker.antt =====
-- Runs of the request tracker.
use oxicast.Common.{ℕ, ◌+◌, ◌%◌, ◌≡◌, refl, arith, List, [], ◌∷◌}
use oxicast.Tracker.{
  Tracker, Outcome, elapsed, new, register, resolve, wait_for, clear, get, insert, remove, deliver,
  forget, next_id,
}
use oxicast.Tracker.Ids.{nth_id, nth_id-eq_iff}
use oxicast.Tracker.Spec.{Refines, perform, tracker_step, spec_step, spec_new, perform-new}
use oxicast.Tracker.Invariant.{
  IsValid, Op, registers, resolves, waits_for, clears, apply_op, apply_ops, new-IsValid,
  apply_ops-IsValid,
}

tracker : Unit {0}
unfolding new register resolve wait_for clear get insert remove deliver forget next_id apply_ops
    apply_op
tracker = tt

-- A tracker whose counter is about to wrap, with one request pending.
abbrev wrapping : Tracker ℕ
wrapping = record { counter = 4294967295; pending = (9, 3) ∷ []; channels = 4; sent = [] }

abbrev history : List (Op ℕ)
history =
    registers ∷ registers ∷ resolves 2 50 ∷ waits_for 10 1 elapsed ∷ resolves 1 60 ∷ clears ∷ []

-- The counter skips 0, a late response finds nobody, and the first response alone is delivered.
tracker_tests :
    ((register wrapping).0 ≡ 1)
    × (apply_ops history new
        ≡ record { counter = 2; pending = []; channels = 2; sent = (1, 50) ∷ [] })
unfolding tracker
tracker_tests = (refl, refl)

apply_ops-IsValid_example : IsValid (apply_ops history new)
apply_ops-IsValid_example = apply_ops-IsValid history new new-IsValid

nth_id-eq_iff_example :
    ((nth_id 0 wrapping ≡ nth_id (0 + 2) wrapping) → 2 % 4294967295 ≡ 0)
    × (2 % 4294967295 ≡ 0 → nth_id 0 wrapping ≡ nth_id (0 + 2) wrapping)
nth_id-eq_iff_example = nth_id-eq_iff 0 2 wrapping (omega arith)

abbrev late : Outcome ℕ
late = elapsed

perform-new_example :
    ((perform tracker_step history new).0 ≡ (perform spec_step history spec_new).0)
    × Refines (perform tracker_step history new).1 (perform spec_step history spec_new).1
perform-new_example = perform-new history
