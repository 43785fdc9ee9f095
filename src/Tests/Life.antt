-- ===== src/Tests/Life.antt =====
-- Interleavings of a connection's life, and of the retry loop.
use oxicast.Common.{
  ℕ, ◌≡◌, refl, Bool, true, false, none, List, [], ◌∷◌, ◌==◌, inl, inr, if◌then◌else◌,
}
use oxicast.Event.{CastEvent, ConnectionState}
use oxicast.Client.Life.{
  Life, checked, resting, Action, reader_fails, disconnect_begins, disconnect_kills,
  disconnect_ends, reconnect_begins, handshake_succeeds, reconnect_stores, reconnect_spawns,
  reconnect_commits, step, run, reader_exit, writer_exit, begin_disconnect, kill, end_disconnect,
  begin_reconnect, after_handshake, store_flags, spawn_tasks, commit, connected_life,
}
use oxicast.Client.Life.Alive.{IsTruthful, run-IsTruthful}
use oxicast.Client.Life.Ended.{disconnect_undone}
use oxicast.Client.Life.Recovery.{Network, reachable, refusing, unreachable, reconnect_with_attempt}
use oxicast.Client.Life.Retry.{on_change, retry_loop, give_up}

life : Unit {0}
unfolding step run reader_exit writer_exit begin_disconnect kill end_disconnect begin_reconnect
    after_handshake store_flags spawn_tasks commit retry_loop give_up on_change
    reconnect_with_attempt
life = tt

-- The connection is lost, and a reconnect succeeds.
abbrev lost_and_found : List Action
lost_and_found =
    reader_fails none
    ∷ reconnect_begins 1
    ∷ handshake_succeeds
    ∷ reconnect_stores
    ∷ reconnect_spawns
    ∷ reconnect_commits true
    ∷ []

-- The same reconnect, before it sets its flags.
abbrev past_test : Life
past_test = record connected_life {
  alive = false;
  reader = false;
  writer = false;
  heartbeat = false;
  phase = checked;
}

life_tests :
    ((run lost_and_found connected_life).alive ≡ true)
    × ((run lost_and_found connected_life).connection ≡ ConnectionState.connected)
    × (run (reader_fails none ∷ reconnect_begins 1 ∷ handshake_succeeds ∷ []) connected_life
        ≡ record past_test {
          connection = ConnectionState.reconnecting 1;
          events =
              CastEvent.reconnecting 1 ∷ CastEvent.disconnected none ∷ CastEvent.connected ∷ [];
        })
unfolding life
life_tests = (refl, refl, refl)

run-IsTruthful_example : IsTruthful (run lost_and_found connected_life)
unfolding life
run-IsTruthful_example =
    run-IsTruthful lost_and_found connected_life (refl, (refl, (refl, (refl, (refl, (refl, tt))))))
      record { tasks_run = inr (inr (refl, refl, refl)); dead_before_stop = inl refl }

disconnect_undone_example :
    let after =
      run
        (disconnect_begins
          ∷ disconnect_kills
          ∷ disconnect_ends
          ∷ reconnect_stores
          ∷ reconnect_spawns
          ∷ reconnect_commits true
          ∷ [])
        past_test in
    (after.alive ≡ true)
    × (after.shutting_down ≡ false)
    × (after.reader ≡ true)
    × (after.writer ≡ true)
    × (after.heartbeat ≡ true)
    × (after.event_open ≡ false)
disconnect_undone_example = disconnect_undone past_test true refl

-- A reconnect that succeeds at the third attempt, and one that never does.
abbrev third_time : ℕ → Life → Bool × Life
third_time attempt s = (attempt == 3, record s { writer = attempt == 3 })

abbrev never : ℕ → Life → Bool × Life
never attempt s = (false, record s { writer = false })

retry_tests :
    ((retry_loop 3 1 third_time connected_life).0 ≡ true)
    × ((retry_loop 2 1 third_time connected_life).0 ≡ false)
unfolding life
retry_tests = (refl, refl)

-- The third attempt reaches the device.
abbrev network : ℕ → Network
network attempt = if attempt == 3 then reachable else if attempt == 2 then refusing else unreachable

abbrev lost_life : Life
lost_life = record past_test { phase = resting; connection = ConnectionState.disconnected }

recovery_tests :
    ((on_change 5 true (reconnect_with_attempt network) lost_life).1.alive ≡ true)
    × ((on_change 2 true (reconnect_with_attempt network) lost_life).0 ≡ false)
unfolding life
recovery_tests = (refl, refl)
