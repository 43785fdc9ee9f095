-- ===== src/Client/Life/Alive.antt =====
-- Whether the `alive` flag tells the truth.
use oxicast.Common.{ltb, Bool, true, false, List, [], ◌∷◌, ◌≡◌, arith, ◌⊎◌}
use oxicast.Client.Life.{
  Life, storing, Action, reader_fails, reconnect_stores, step, run, reader_exit, writer_exit,
  heartbeat_exit, begin_disconnect, kill, end_disconnect, begin_reconnect, after_handshake,
  store_flags, spawn_tasks, commit, in_phase,
}

-- While `alive` is set all three tasks run, or a reconnect is about to spawn them; and it is not set
-- when a disconnect is about to stop them.
pub record IsTruthful (s : Life) : Type 0 where
  pub tasks_run :
      (s.alive ≡ false)
      ⊎ (in_phase s.phase storing ≡ true)
      ⊎ ((s.reader ≡ true) × (s.writer ≡ true) × (s.heartbeat ≡ true))
  pub dead_before_stop : (ltb 0 s.stopping_tasks ≡ false) ⊎ (s.alive ≡ false)

-- A reconnect that sets its flags between the kill of a disconnect and its end.
abbrev pub overtakes : Action → Life → Bool
overtakes reconnect_stores s = ltb 0 s.stopping_tasks
overtakes _ s = false

abbrev pub NoneOvertakes : List Action → Life → Type 0
NoneOvertakes [] s = Unit
NoneOvertakes (a ∷ actions) s = (overtakes a s ≡ false) × NoneOvertakes actions (step a s)

pub step-IsTruthful :
    (a : Action) (s : Life) → overtakes a s ≡ false → IsTruthful s → IsTruthful (step a s)
unfolding step reader_exit writer_exit heartbeat_exit begin_disconnect kill end_disconnect
    begin_reconnect after_handshake store_flags spawn_tasks commit
step-IsTruthful (reader_fails reason) s n v = record {
  tasks_run = ground (arith, v.tasks_run, v.dead_before_stop);
  dead_before_stop = ground (arith, v.tasks_run, v.dead_before_stop);
}
step-IsTruthful a s n v = record {
  tasks_run = ground (arith, v.tasks_run, v.dead_before_stop);
  dead_before_stop = ground (arith, v.tasks_run, v.dead_before_stop);
}

-- While `alive` is set all three tasks run, or a reconnect is about to spawn them: every
-- interleaving of the tasks, of `disconnect` and of a reconnect keeps this, as long as no reconnect
-- sets its flags while a disconnect is about to stop the tasks.
pub run-IsTruthful :
    (actions : List Action) (s : Life)
    → NoneOvertakes actions s
    → IsTruthful s
    → IsTruthful (run actions s)
unfolding run
run-IsTruthful [] s n v = v
run-IsTruthful (a ∷ actions) s n v =
    run-IsTruthful actions (step a s) n.1 (step-IsTruthful a s n.0 v)
