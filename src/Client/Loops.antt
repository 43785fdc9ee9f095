-- ===== src/Client/Loops.antt =====
-- `writer_loop` and `reader_loop` of src/client.rs, until they end by themselves: that a task is
-- cancelled is an action of a connection's life. The Display text of an error is a parameter.
pub mod Reading
pub mod Termination
pub mod Transport
use oxicast.Common.{ℕ, zero, suc, ◌+◌, String, Bool, true, false, Option, none, some, List, [], ◌∷◌}
use oxicast.Types.{F64, F32}
use oxicast.Event.{CastEvent, ConnectionState}
use oxicast.Error.{Error, Result, ok, err, disconnected}
use oxicast.Message.{CastMessage}
use oxicast.Serde.{SerdeJson}
use oxicast.Tracker.{clear}
use oxicast.Framing.{Stream, Prost, read_message, write_message}
use oxicast.Router.{World, emit, route}

-- What the writer task shares with the client.
pub record Outbound : Type 0 where
  pub alive : Bool
  pub connection : ConnectionState

-- What the reader task shares with it; `touches` counts the calls of `heartbeat::touch`.
pub record Inbound (V : Type 0) : Type 0 where
  pub world : World V
  pub alive : Bool
  pub touches : ℕ

abbrev pub write_failed : Outbound → Outbound
write_failed x = record { alive = false; connection = ConnectionState.disconnected }

-- The event's text is none for the device's own closing of the connection.
abbrev pub reason : (Error → String) → Error → Option String
reason show_error disconnected = none
reason show_error e = some (show_error e)

abbrev pub close_world : {V : Type 0} → Option String → World V → World V
close_world why w =
    let told = emit (CastEvent.disconnected why) w in
    record told {
      state = record (told.state) { connection = ConnectionState.disconnected };
      tracker = clear told.tracker;
    }

-- The exits of the reader's loop, and what follows the loop.
unfoldable pub reader_stops : {V : Type 0} → Option String → Inbound V → Inbound V
reader_stops why x = record x { world = close_world why x.world; alive = false }

module _ (s : Stream) (p : Prost) where
  abbrev pub on_write :
      (s.Writer → Outbound → s.Writer × Outbound)
      → Result (Unit {0}) × s.Writer
      → Outbound
      → s.Writer × Outbound
  on_write next (ok u, w) x = next w x
  on_write next (err e, w) x = (w, write_failed x)

  -- Over what the channel gives until it is closed.
  unfoldable pub writer_loop : List CastMessage → s.Writer → Outbound → s.Writer × Outbound
  writer_loop [] w x = (w, x)
  writer_loop (m ∷ ms) w x = on_write (writer_loop ms) (write_message s p m w) x

module _ (s : Stream) (p : Prost) (j : SerdeJson) (to_f32 : F64 → F32)
    (show_error : Error → String) where
  open j use {Value}

  -- A message: `heartbeat::touch`, and `router::route`.
  unfoldable pub hear : CastMessage → Inbound Value → Inbound Value
  hear msg x = record x { world = route j to_f32 msg x.world; touches = x.touches + 1 }

  abbrev pub on_read :
      (s.Reader → Inbound Value → Option (Inbound Value))
      → Result CastMessage × s.Reader
      → Inbound Value
      → Option (Inbound Value)
  on_read next (ok msg, r) x = next r (hear msg x)
  on_read next (err e, r) x = some (reader_stops (reason show_error e) x)

  -- With fuel for each message; none is a loop that has not ended yet.
  unfoldable pub reader_loop : ℕ → s.Reader → Inbound Value → Option (Inbound Value)
  reader_loop zero r x = none
  reader_loop (suc fuel) r x = on_read (reader_loop fuel) (read_message s p r) x

  abbrev pub hear_all : List CastMessage → Inbound Value → Inbound Value
  hear_all [] x = x
  hear_all (m ∷ ms) x = hear_all ms (hear m x)
