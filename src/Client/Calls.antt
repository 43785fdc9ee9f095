-- ===== src/Client/Calls.antt =====
-- The requests of src/client.rs when clones of the client run commands at the same time. A command is
-- known by the oneshot channel that its request gets. A step is what runs between two points where the
-- code leaves the others to run: a lock, a send to a channel, or the wait for the answer. One lock is
-- no such point: `registers` is one step, though `register` takes its number from the atomic counter
-- before it waits for the lock on the table.
pub mod Own
pub mod Kept
pub mod Released
use oxicast.Common.{
  ℕ, ◌≡◌, ◌≢◌, refl, Bool, true, false, Option, none, some, List, [], ◌∷◌, ◌==◌, if◌then◌else◌, ◌⊎◌,
}
use oxicast.Types.{F64, F32}
use oxicast.Error.{Result, ok, err, disconnected}
use oxicast.Message.{CastMessage}
use oxicast.Serde.{SerdeJson}
use oxicast.State.{new_state}
use oxicast.Tracker
use oxicast.Tracker.{
  Tracker, Outcome, received, sender_dropped, elapsed, get, register, wait_for, clear,
}
use oxicast.Router.{World, write, route}

-- Where a command stands: not begun, with its id registered, with its request sent, returned, or
-- dropped by its caller while it waited.
pub data Status (V : Type 0) : Type 0 where
  unstarted : Status V
  registered waiting abandoned : (id : ℕ) → Status V
  returned : (id : ℕ) → Result V → Status V

abbrev pub id_of : {V : Type 0} → Status V → Option ℕ
id_of unstarted = none
id_of (registered id) = some id
id_of (waiting id) = some id
id_of (abandoned id) = some id
id_of (returned id r) = some id

-- The commands by their channels.
pub record Calls (V : Type 0) : Type 0 where
  pub world : World V
  pub open world use *
  pub status : ℕ → Status V

module _ {V : Type 0} where
  abbrev pub set_status : ℕ → Status V → Calls V → Calls V
  set_status c x s = record s { status = λ i. if i == c then x else s.status i }

  abbrev pub set_tracker : Tracker V → Calls V → Calls V
  set_tracker t s = record s { world = record (s.world) { tracker = t } }

  -- The channel has been given the payload.
  abbrev pub Delivered : ℕ → V → List (ℕ × V) → Type 0
  Delivered c v [] = ⊥
  Delivered c v ((d, w) ∷ sent) = ((d ≡ c) × (w ≡ v)) ⊎ Delivered c v sent

  -- What the receiving end of a channel may see: a payload, or a sender that is gone with nothing
  -- sent. That the time has elapsed may come at any moment.
  abbrev pub Observes : Tracker V → ℕ → Outcome V → Type 0
  Observes t c (received v) = Delivered c v t.sent
  Observes t c sender_dropped =
      ((i : ℕ) → get i t.pending ≢ some c) × ((v : V) → ¬ Delivered c v t.sent)
  Observes t c elapsed = Unit

  abbrev pub began : ℕ × ℕ × Tracker V → Calls V → Calls V
  began (id, c, t) s = set_status c (registered id) (set_tracker t s)

  abbrev pub ended : (c id : ℕ) → Result V × Tracker V → Calls V → Calls V
  ended c id (r, t) s = set_status c (returned id r) (set_tracker t s)

module _ (j : SerdeJson) (to_f32 : F64 → F32) (limit : ℕ) where
  open j use {Value}

  -- A part of a command, or a message that the reader routes.
  pub data Step (s : Calls Value) : Calls Value → Type 0 where
    registers : Step s (began (register s.tracker) s)
    sends :
        (c id : ℕ) (build : ℕ → CastMessage)
        → s.status c ≡ registered id
        → Step s (set_status c (waiting id) (record s { world = write (build id) s.world }))
    is_refused :
        (c id : ℕ)
        → s.status c ≡ registered id
        → Step s (set_status c (returned id (err disconnected)) s)
    routes : (m : CastMessage) → Step s (record s { world = route j to_f32 m s.world })
    returns :
        (c id : ℕ) (o : Outcome Value)
        → s.status c ≡ waiting id
        → Observes s.tracker c o
        → Step s (ended c id (wait_for limit id o s.tracker) s)
    is_abandoned : (c id : ℕ) → s.status c ≡ waiting id → Step s (set_status c (abandoned id) s)

  -- A step, or the tracker cleared at the end of a connection.
  pub data Move (s : Calls Value) : Calls Value → Type 0 where
    steps : {t : Calls Value} → Step s t → Move s t
    clears : Move s (set_tracker (clear s.tracker) s)

  abbrev pub no_calls : Calls Value
  no_calls = record {
    world = record { tracker = Tracker.new; state = new_state; events = []; written = [] };
    status = λ _. unstarted;
  }

  -- What can be reached from a new tracker; and what can be while it is not cleared.
  pub data Reach : Calls Value → Type 0 where
    start : Reach no_calls
    later : {s t : Calls Value} → Reach s → Move s t → Reach t

  pub data ReachUncleared : Calls Value → Type 0 where
    start : ReachUncleared no_calls
    later : {s t : Calls Value} → ReachUncleared s → Step s t → ReachUncleared t
