-- ===== src/Client/Life/Recovery.antt =====
-- The auto-reconnect task of src/client.rs with `reconnect_with_attempt` itself, when nothing else happens
-- to the connection meanwhile.
pub mod Loop
use oxicast.Common.{
  ℕ, zero, suc, ◌+◌, ◌≤◌, ◌<◌, ◌≡◌, ◌≢◌, refl, sym, ◌⊎◌, inl, inr, Bool, true, false, Option, none,
  some, List, [], ◌∷◌, if◌then◌else◌, arith, ◌==◌, subst, Bool-cases,
}
use oxicast.Event.{CastEvent, ConnectionState}
use oxicast.Client.Life.{
  Life, Action, resting, in_phase, reconnect_begins, handshake_fails, handshake_succeeds,
  reconnect_stores, reconnect_spawns, reconnect_commits, writer_fails, step, run, begin_reconnect,
  after_handshake, store_flags, spawn_tasks, commit,
}
use oxicast.Client.Life.Retry.{suc-ne-zero, retry_loop, after_attempt, on_change}

-- How the network treats an attempt: the handshake fails; the new writer fails, so that CONNECT is
-- refused; or all goes well.
pub data Network : Type 0 where
  unreachable refusing reachable : Network

abbrev pub actions_of : Network → (attempt : ℕ) → List Action
actions_of unreachable attempt = reconnect_begins attempt ∷ handshake_fails ∷ []
actions_of refusing attempt =
    reconnect_begins attempt
    ∷ handshake_succeeds
    ∷ reconnect_stores
    ∷ reconnect_spawns
    ∷ writer_fails
    ∷ reconnect_commits false
    ∷ []
actions_of reachable attempt =
    reconnect_begins attempt
    ∷ handshake_succeeds
    ∷ reconnect_stores
    ∷ reconnect_spawns
    ∷ reconnect_commits true
    ∷ []

abbrev pub succeeds : Network → Bool
succeeds unreachable = false
succeeds refusing = false
succeeds reachable = true

-- `reconnect_with_attempt`: whether it returns `Ok`, and the state after it.
unfoldable pub reconnect_with_attempt : (ℕ → Network) → ℕ → Life → Bool × Life
reconnect_with_attempt network attempt s =
    if s.shutting_down
    then (false, s)
    else if s.alive
    then (true, s)
    else (succeeds (network attempt), run (actions_of (network attempt) attempt) s)

-- The connection is lost, and nobody else works on it.
pub record IsLost (s : Life) : Type 0 where
  pub not_flagged : s.shutting_down ≡ false
  pub dead : s.alive ≡ false
  pub at_rest : in_phase s.phase resting ≡ true
  pub listening : s.event_open ≡ true

abbrev pub newest : List CastEvent → Option CastEvent
newest [] = none
newest (e ∷ _) = some e

-- All is well again, and the newest event says so.
pub record IsRecovered (s : Life) : Type 0 where
  pub living : s.alive ≡ true
  pub connected : s.connection ≡ ConnectionState.connected
  pub tasks_run : (s.reader ≡ true) × (s.writer ≡ true) × (s.heartbeat ≡ true)
  pub told : newest s.events ≡ some CastEvent.reconnected

-- The task has given up, and the newest event says so.
pub record HasGivenUp (s : Life) : Type 0 where
  pub dead : s.alive ≡ false
  pub lost : s.connection ≡ ConnectionState.disconnected
  pub told : newest s.events ≡ some (CastEvent.disconnected (some "reconnect failed"))

pub reachable-IsRecovered :
    (attempt : ℕ) (s : Life) → IsLost s → IsRecovered (run (actions_of reachable attempt) s)
unfolding run step begin_reconnect after_handshake store_flags spawn_tasks commit
reachable-IsRecovered attempt s h = ground arith
