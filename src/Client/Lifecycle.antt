-- ===== src/Client/Lifecycle.antt =====
-- `disconnect` and `reconnect` of src/client.rs on the whole client: the state that its commands work
-- on, and the life of its connection. What happens elsewhere meanwhile is a parameter of each.
pub mod Disconnect
pub mod Reconnect
pub mod Overruled
use oxicast.Common.{
  ℕ, String, Bool, true, false, Option, none, some, List, [], ◌∷◌, ◌++◌, if◌then◌else◌,
}
use oxicast.Common.Int.{ℤ}
use oxicast.Types.{F64, F32}
use oxicast.Error.{Error, Result, ok, err, disconnected}
use oxicast.Message.{CastMessage}
use oxicast.Serde.{SerdeJson}
use oxicast.Tracker.{clear}
use oxicast.Channel.Connection.{connect_msg, close_msg}
use oxicast.Channel.Media
use oxicast.Client.State.{
  Client, Command, ◌>>=◌, ◌>>◌, lift, send, get_transport_id, get_media_session_id,
}
use oxicast.Router.Traffic.{Traffic}
use oxicast.Client.Request.{Reply, register_request, tasks_run}
use oxicast.Client.Playback.{stop_media}
use oxicast.Client.Life.{
  Life, Action, disconnect_begins, disconnect_kills, disconnect_ends, reconnect_begins,
  handshake_fails, handshake_succeeds, reconnect_stores, reconnect_spawns, reconnect_commits, step,
  run,
}

pub record Whole (V : Type 0) : Type 0 where
  pub client : Client V
  pub life : Life

-- How the bounded wait for STOP and CLOSE ends: in time, with the CLOSE taken or not; or cut off
-- while STOP waits for room in the write channel, while its answer is awaited, or while CLOSE waits
-- for room.
pub data Farewell (V : Type 0) : Type 0 where
  finishes : (reply : Reply V) (taken : Bool) → Farewell V
  cut_at_stop cut_at_answer : (meanwhile : List Traffic) → Farewell V
  cut_at_close : (reply : Reply V) → Farewell V

-- What comes after the first test of a reconnect: the handshake fails, or it succeeds and the
-- CONNECT messages are taken or not. `early` is what the new tasks do before the connection is
-- announced; the messages that they route by then count as routed later.
pub data Handshake : Type 0 where
  refused : (reason : Error) → Handshake
  established : (receiver_taken transport_taken : Bool) (early : List Action) → Handshake

abbrev pub is_ok : {A : Type 0} → Result A → Bool
is_ok (ok a) = true
is_ok (err e) = false

module _ {V : Type 0} where
  -- `self.inner.request_tracker.clear()`.
  unfoldable pub drop_pending : Client V → Client V
  unfolding clear
  drop_pending c = record c { world = record (c.world) { tracker = clear c.tracker } }

module _ (j : SerdeJson) (to_f32 : F64 → F32) (show_i64 : ℤ → String) where
  open j use {Value}

  -- `stop_media` up to its request, and up to its wait.
  abbrev pub prepare_stop : Command Value CastMessage
  prepare_stop = do
    transport_id ← get_transport_id
    msid ← get_media_session_id
    id ← register_request j to_f32
    lift (ok (Media.stop j id transport_id msid))

  abbrev pub ask_stop : Command Value (Unit {0})
  ask_stop = prepare_stop >>= λ msg. send msg true

  unfoldable pub farewell : Farewell Value → Client Value → Client Value
  farewell (finishes reply taken) c =
      (send (close_msg j "receiver-0") taken (stop_media j to_f32 show_i64 reply c).1).1
  farewell (cut_at_stop meanwhile) c = tasks_run j to_f32 meanwhile (prepare_stop c).1
  farewell (cut_at_answer meanwhile) c = tasks_run j to_f32 meanwhile (ask_stop c).1
  farewell (cut_at_close reply) c = (stop_media j to_f32 show_i64 reply c).1

  -- `before` and `between` are what happens to the connection until `alive` is cleared and from then
  -- on until the tasks are stopped; `late` is what they still do in the second of these.
  unfoldable pub disconnect :
      Farewell Value
      → (before between : List Action) → (late : List Traffic) → Whole Value
      → Result (Unit {0}) × Whole Value
  unfolding farewell
  disconnect f before between late w = (
    ok tt,
    record {
      client = drop_pending (tasks_run j to_f32 late (farewell f w.client));
      life =
          run (disconnect_begins ∷ before ++ disconnect_kills ∷ between ++ disconnect_ends ∷ [])
            w.life;
    },
  )

module _ (j : SerdeJson) where
  open j use {Value}

  abbrev pub reopen_transport : Option String → Bool → Command Value (Unit {0})
  reopen_transport none taken = lift (ok tt)
  reopen_transport (some transport_id) taken = send (connect_msg j transport_id) taken

  -- CONNECT to the receiver, and to the application launched last.
  unfoldable pub reopen : (receiver_taken transport_taken : Bool) → Command Value (Unit {0})
  reopen receiver_taken transport_taken c =
      (send (connect_msg j "receiver-0") receiver_taken
          >> reopen_transport c.transport_id transport_taken)
        c

  abbrev pub announced :
      List Action → Life → Result (Unit {0}) × Client Value → Result (Unit {0}) × Whole Value
  announced early s (r, c) = (
    r,
    record {
      client = c;
      life =
          step (reconnect_commits (is_ok r)) (run (reconnect_stores ∷ reconnect_spawns ∷ early) s);
    },
  )

  -- After the handshake, which ended in the state `s`.
  unfoldable pub after_shake : Handshake → Life → Client Value → Result (Unit {0}) × Whole Value
  unfolding reopen
  after_shake (refused reason) s c =
      (err reason, record { client = c; life = step handshake_fails s })
  after_shake (established receiver_taken transport_taken early) s c =
      if s.shutting_down
      then (err disconnected, record { client = c; life = step handshake_succeeds s })
      else announced early (step handshake_succeeds s)
          (reopen receiver_taken transport_taken (drop_pending c))

  -- `during` is what happens to the connection during the handshake. The call holds the lock of
  -- the reconnects, so that no other one is under way.
  unfoldable pub reconnect_with_attempt :
      (attempt : ℕ)
      → Handshake
      → (during : List Action) → Whole Value
      → Result (Unit {0}) × Whole Value
  unfolding after_shake
  reconnect_with_attempt attempt h during w =
      if w.life.shutting_down
      then (err disconnected, w)
      else if w.life.alive
      then (ok tt, w)
      else after_shake h (run (reconnect_begins attempt ∷ during) w.life) w.client

  abbrev pub reconnect :
      Handshake → (during : List Action) → Whole Value → Result (Unit {0}) × Whole Value
  reconnect = reconnect_with_attempt 1
