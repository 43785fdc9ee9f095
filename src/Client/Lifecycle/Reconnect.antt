-- ===== src/Client/Lifecycle/Reconnect.antt =====
-- How a reconnect of src/client.rs ends.
use oxicast.Common.{
  ℕ, String, Bool, true, false, Option, none, some, List, [], ◌∷◌, ◌++◌, ◌≡◌, refl, arith,
}
use oxicast.Event.{ConnectionState}
use oxicast.Error.{ok}
use oxicast.Message.{CastMessage}
use oxicast.Serde.{SerdeJson}
use oxicast.Tracker.{clear}
use oxicast.Channel.Connection.{connect_msg}
use oxicast.Client.State.{Client, send}
use oxicast.Client.Life.{
  Life, is_connected, connection_state, Action, reader_fails, reconnect_begins, handshake_succeeds,
  reconnect_stores, reconnect_spawns, reconnect_commits, step, run, reader_exit, begin_reconnect,
  after_handshake, store_flags, spawn_tasks, commit,
}
use oxicast.Client.Life.Retry.{on_change, on_change-connected}
use oxicast.Client.Life.Recovery.{IsLost, IsRecovered, reachable-IsRecovered}
use oxicast.Client.Lifecycle.{
  Whole, established, drop_pending, reopen, announced, after_shake, reconnect_with_attempt,
}

module _ (j : SerdeJson) where
  -- The CONNECT messages of a reconnect, newest first.
  abbrev pub connects : Option String → List CastMessage
  connects none = connect_msg j "receiver-0" ∷ []
  connects (some t) = connect_msg j t ∷ connect_msg j "receiver-0" ∷ []

  -- The client with its requests dropped and the CONNECT messages sent.
  abbrev pub reopened : Client j.Value → Client j.Value
  reopened c = record c {
    world = record (c.world) {
      tracker = clear c.tracker;
      written = connects c.transport_id ++ c.written;
    };
  }

  reopen-ok : (c : Client j.Value) → reopen j true true (drop_pending c) ≡ (ok tt, reopened c)
  unfolding reopen send drop_pending clear
  reopen-ok c = reopens c.transport_id refl
    where
      reopens :
          (o : Option String)
          → c.transport_id ≡ o
          → reopen j true true (drop_pending c) ≡ (ok tt, reopened c)
      reopens none e = rw e refl
      reopens (some t) e = rw e refl

  begun-not_flagged :
      (attempt : ℕ) (s : Life)
      → IsLost s
      → (run (reconnect_begins attempt ∷ []) s).shutting_down ≡ false
  unfolding run step begin_reconnect
  begun-not_flagged attempt s h = ground arith

  -- With the connection lost and the handshake done, the reconnect sends the CONNECT messages.
  reconnect-reopens :
      (attempt : ℕ) (receiver_taken transport_taken : Bool) (early : List Action)
      (w : Whole j.Value)
      → IsLost w.life
      → reconnect_with_attempt j attempt (established receiver_taken transport_taken early) [] w
        ≡ announced j early
            (step handshake_succeeds (run (reconnect_begins attempt ∷ []) w.life))
            (reopen j receiver_taken transport_taken (drop_pending w.client))
  unfolding reconnect_with_attempt after_shake
  reconnect-reopens attempt receiver_taken transport_taken early w h =
      simp (h.not_flagged, h.dead, begun-not_flagged attempt w.life h) refl

  -- A reconnect of a client whose connection is lost, with a handshake that succeeds, both CONNECT
  -- messages taken, and nothing else happening: it returns `Ok`; the client is alive and connected,
  -- with all tasks, and says so last; it has dropped its requests, sent CONNECT to the receiver and
  -- then to the application launched last, if any, and changed nothing else that its commands read.
  pub reconnect-IsBack :
      (attempt : ℕ) (w : Whole j.Value)
      → IsLost w.life
      → let (result, after) = reconnect_with_attempt j attempt (established true true []) [] w in
        (result ≡ ok tt) × (after.client ≡ reopened w.client) × IsRecovered after.life
  unfolding run
  reconnect-IsBack attempt w h =
      rw (reconnect-reopens attempt true true [] w h, reopen-ok w.client)
        (refl, refl, reachable-IsRecovered attempt w.life h)

  -- The reader fails once it is spawned.
  dies-early :
      (attempt : ℕ) (reason : Option String) (s : Life)
      → IsLost s
      → let after = step (reconnect_commits true) (
          run
            (reconnect_stores ∷ reconnect_spawns ∷ reader_fails reason ∷ [])
            (step handshake_succeeds (run (reconnect_begins attempt ∷ []) s))) in
        (after.alive ≡ false)
        × (after.shutting_down ≡ false)
        × (after.connection ≡ ConnectionState.connected)
  unfolding run step begin_reconnect after_handshake store_flags spawn_tasks reader_exit commit
  dies-early attempt reason s h = (ground arith, ground arith, ground arith)

  -- When the new reader fails before a reconnect of a lost connection announces it, the reconnect
  -- returns `Ok` for a client that is not alive but whose state says connected, and that state does
  -- not make the auto-reconnect task reconnect.
  pub reconnect-lost :
      (attempt max_attempts : ℕ) (reason : Option String) (again : ℕ → Life → Bool × Life)
      (w : Whole j.Value)
      → IsLost w.life
      → let early : List Action = reader_fails reason ∷ [] in
        let (result, after) = reconnect_with_attempt j attempt (established true true early) [] w in
        (result ≡ ok tt)
        × (is_connected after.life ≡ false)
        × (connection_state after.life ≡ ConnectionState.connected)
        × (on_change max_attempts true again after.life ≡ (true, after.life))
  reconnect-lost attempt max_attempts reason again w h =
      let (dead, flag, told) = dies-early attempt reason w.life h in
      rw (reconnect-reopens attempt true true (reader_fails reason ∷ []) w h, reopen-ok w.client)
        (refl, dead, told, on_change-connected max_attempts again _ flag told)
