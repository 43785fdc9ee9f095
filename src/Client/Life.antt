-- ===== src/Client/Life.antt =====
-- The life of a connection in src/client.rs: the exits of `reader_loop` and `writer_loop`, the timeout
-- of the heartbeat task, `disconnect`, and `reconnect_with_attempt`. An action is what runs between
-- two points where the code leaves the others to run, so that a list of actions is one interleaving.
-- A lock is taken as granted at once, except for those that `reconnect_with_attempt` awaits after it
-- has set its flags, and that `disconnect` awaits after it has cleared `alive`. What follows the
-- first of those in `disconnect` is one action, `end_disconnect`, although it awaits the tracker's lock
-- and the lock on the event sender there.
pub mod Alive
pub mod Ended
pub mod Retry
pub mod Recovery
use oxicast.Common.{
  ℕ, ◌+◌, ◌-◌, ltb, String, Bool, true, false, Option, none, some, List, [], ◌∷◌, if◌then◌else◌,
}
use oxicast.Event.{
  CastEvent, disconnected, reconnecting, reconnected, heartbeat_timeout, ConnectionState,
}
use oxicast.Tracker.{Pending}

-- Where `reconnect_with_attempt` stands: not running, in the TLS handshake, past the second test of
-- `shutting_down`, with its flags set and the new tasks not yet spawned, or with the tasks spawned and
-- the connection not yet announced.
pub data Phase : Type 0 where
  resting connecting checked storing announcing : Phase

-- `reader`, `writer` and `heartbeat` say which tasks run. `events` logs what the live event channel
-- was offered, newest first; `event_open` is false once `disconnect` has put the dead sender in
-- place. `stopping_media` counts the calls of `disconnect` that are in their bounded wait for STOP and
-- CLOSE, and `stopping_tasks` those that have cleared `alive` and are about to stop the tasks.
pub record Life : Type 0 where
  pub alive : Bool
  pub shutting_down : Bool
  pub connection : ConnectionState
  pub reader : Bool
  pub writer : Bool
  pub heartbeat : Bool
  pub event_open : Bool
  pub events : List CastEvent
  pub pending : Pending
  pub phase : Phase
  pub stopping_media : ℕ
  pub stopping_tasks : ℕ

pub data Action : Type 0 where
  reader_fails : (reason : Option String) → Action
  writer_fails : Action
  heartbeat_fails : Action
  disconnect_begins disconnect_kills disconnect_ends : Action
  reconnect_begins : (attempt : ℕ) → Action
  handshake_fails handshake_succeeds reconnect_stores reconnect_spawns : Action
  reconnect_commits : (accepted : Bool) → Action

-- `try_send_event`, through the client's sender.
abbrev pub offer : CastEvent → Life → Life
offer e s = if s.event_open then record s { events = e ∷ s.events } else s

-- `TaskHandles::shutdown`: a cancelled reader clears the tracker before it returns. If the
-- abort that follows comes first, the callers clear it later than here.
abbrev pub shutdown : Life → Life
shutdown s = record s {
  reader = false;
  writer = false;
  heartbeat = false;
  pending = if s.reader then [] else s.pending;
}

-- `Drop for ClientInner`, when the last handle is gone: the tasks are cancelled.
unfoldable pub drop_last : Life → Life
drop_last s = shutdown s

abbrev pub is_connected : Life → Bool
is_connected s = s.alive

abbrev pub connection_state : Life → ConnectionState
connection_state s = s.connection

-- The uncontrolled exit of `reader_loop`, for EOF or an error.
unfoldable pub reader_exit : Option String → Life → Life
reader_exit reason s = record (offer (disconnected reason) (record s { alive = false })) {
  connection = ConnectionState.disconnected;
  pending = [];
  reader = false;
}

-- A write error in `writer_loop`.
unfoldable pub writer_exit : Life → Life
writer_exit s = record s {
  alive = false;
  connection = ConnectionState.disconnected;
  writer = false;
}

unfoldable pub heartbeat_exit : Life → Life
heartbeat_exit s =
    offer heartbeat_timeout
      (record s { alive = false; connection = ConnectionState.disconnected; heartbeat = false })

-- The first store of `disconnect`, the one after the bounded wait for STOP and CLOSE, and the rest.
unfoldable pub begin_disconnect : Life → Life
begin_disconnect s = record s { shutting_down = true; stopping_media = s.stopping_media + 1 }

unfoldable pub kill : Life → Life
kill s = record s {
  alive = false;
  stopping_media = s.stopping_media - 1;
  stopping_tasks = s.stopping_tasks + 1;
}

unfoldable pub end_disconnect : Life → Life
end_disconnect s =
    let told =
      offer (disconnected none)
        (record (shutdown s) { pending = []; connection = ConnectionState.disconnected }) in
    record told { event_open = false; stopping_tasks = s.stopping_tasks - 1 }

-- `reconnect_with_attempt` up to the handshake.
unfoldable pub begin_reconnect : ℕ → Life → Life
begin_reconnect attempt s =
    if s.shutting_down
    then s
    else if s.alive
    then s
    else record (shutdown (
        offer (reconnecting attempt)
          (record s { connection = ConnectionState.reconnecting attempt }))) { phase = connecting }

-- The second test of `shutting_down`.
unfoldable pub after_handshake : Life → Life
after_handshake s =
    if s.shutting_down then record s { phase = resting } else record s { phase = checked }

-- From the swap of the write channel to the two stores.
unfoldable pub store_flags : Life → Life
store_flags s = record s { alive = true; shutting_down = false; phase = storing }

-- The cleared tracker and the new tasks.
unfoldable pub spawn_tasks : Life → Life
spawn_tasks s = record s {
  pending = [];
  reader = true;
  writer = true;
  heartbeat = true;
  phase = announcing;
}

-- From there to the end; `accepted` says whether the CONNECT messages are taken. A failure there
-- returns early.
unfoldable pub commit : Bool → Life → Life
commit accepted s =
    let done : Life = record s { phase = resting } in
    if accepted
    then offer reconnected (record done { connection = ConnectionState.connected })
    else done

abbrev pub when : Bool → (Life → Life) → Life → Life
when b f s = if b then f s else s

abbrev pub in_phase : Phase → Phase → Bool
in_phase resting resting = true
in_phase connecting connecting = true
in_phase checked checked = true
in_phase storing storing = true
in_phase announcing announcing = true
in_phase _ _ = false

-- A task acts while it runs. The parts of a reconnect follow one another, and a second call waits for
-- the first, as the code has it; calls of `disconnect` overlap freely.
unfoldable pub step : Action → Life → Life
step (reader_fails reason) s = when s.reader (reader_exit reason) s
step writer_fails s = when s.writer writer_exit s
step heartbeat_fails s = when s.heartbeat heartbeat_exit s
step disconnect_begins s = begin_disconnect s
step disconnect_kills s = when (ltb 0 s.stopping_media) kill s
step disconnect_ends s = when (ltb 0 s.stopping_tasks) end_disconnect s
step (reconnect_begins attempt) s = when (in_phase s.phase resting) (begin_reconnect attempt) s
step handshake_fails s = when (in_phase s.phase connecting) (λ t. record t { phase = resting }) s
step handshake_succeeds s = when (in_phase s.phase connecting) after_handshake s
step reconnect_stores s = when (in_phase s.phase checked) store_flags s
step reconnect_spawns s = when (in_phase s.phase storing) spawn_tasks s
step (reconnect_commits accepted) s = when (in_phase s.phase announcing) (commit accepted) s

unfoldable pub run : List Action → Life → Life
run [] s = s
run (a ∷ actions) s = run actions (step a s)

-- The state after `from_builder`.
abbrev pub connected_life : Life
connected_life = record {
  alive = true;
  shutting_down = false;
  connection = ConnectionState.connected;
  reader = true;
  writer = true;
  heartbeat = true;
  event_open = true;
  events = CastEvent.connected ∷ [];
  pending = [];
  phase = resting;
  stopping_media = 0;
  stopping_tasks = 0;
}
