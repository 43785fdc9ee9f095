-- ===== src/Client/Loops/Termination.antt =====
-- The reader's loop ends on every finite stream.
use oxicast.Common.{
  ℕ, zero, suc, ◌<◌, ◌≡◌, refl, false, String, Option, some, List, [], length, arith, inl, inr, ◌∷◌,
}
use oxicast.Types.{F64, F32}
use oxicast.Event.{CastEvent, ConnectionState}
use oxicast.Error.{Error, Result, ok, err}
use oxicast.Message.{CastMessage}
use oxicast.Serde.{SerdeJson}
use oxicast.Tracker.{clear}
use oxicast.Framing.{Stream, Prost, IsStream, read_message}
use oxicast.Framing.Progress.{Progresses, read_message-Progresses}
use oxicast.Client.Loops.{Inbound, reader_stops, on_read, reader_loop}

module _ (s : Stream) (p : Prost) (j : SerdeJson) (to_f32 : F64 → F32) (show_error : Error → String)
    (lawful : IsStream s) where
  -- The task has ended: the client is not alive, its state says so, nothing is pending, and the
  -- newest event is the disconnection.
  pub record HasStopped (x : Inbound j.Value) : Type 0 where
    pub dead : x.alive ≡ false
    pub lost : x.world.state.connection ≡ ConnectionState.disconnected
    pub nothing_pending : x.world.tracker.pending ≡ []
    pub told :
        (why : Option String) × (older : List CastEvent) × (x.world.events
          ≡ CastEvent.disconnected why ∷ older)

  abbrev pub Ends : Option (Inbound j.Value) → Type 0
  Ends o = (x : Inbound j.Value) × (o ≡ some x) × HasStopped x

  reader_stops-HasStopped :
      (why : Option String) (x : Inbound j.Value) → HasStopped (reader_stops why x)
  unfolding reader_stops clear
  reader_stops-HasStopped why x = record {
    dead = refl;
    lost = refl;
    nothing_pending = refl;
    told = (why, x.world.events, refl);
  }

  read_Ends :
      (size : ℕ) (next : s.Reader → Inbound j.Value → Option (Inbound j.Value))
      (got : Result CastMessage × s.Reader) (x : Inbound j.Value)
      → Progresses s p lawful size got
      → ((r : s.Reader) (bs : List ℕ) (y : Inbound j.Value)
          → lawful.Pending r bs
          → length bs < size
          → Ends (next r y))
      → Ends (on_read s p j to_f32 show_error next got x)
  read_Ends size next (err e, r) x h ih = (_, refl, reader_stops-HasStopped _ x)
  read_Ends size next (ok m, r) x (inl (e, f)) ih = absurd (ground arith)
  read_Ends size next (ok m, r) x (inr (m', rest, f, q, small)) ih = ih r rest _ q small

  -- On a stream of n bytes the reader's loop ends within n + 1 reads: the client is then not alive,
  -- its state is disconnected, nothing is pending, and the newest event is the disconnection.
  pub reader_loop-Ends :
      (fuel : ℕ) (r : s.Reader) (bs : List ℕ) (x : Inbound j.Value)
      → lawful.Pending r bs
      → length bs < fuel
      → Ends (reader_loop s p j to_f32 show_error fuel r x)
  unfolding reader_loop
  reader_loop-Ends zero r bs x h small = absurd (omega arith)
  reader_loop-Ends (suc fuel) r bs x h small =
      read_Ends (length bs) (reader_loop s p j to_f32 show_error fuel) (read_message s p r) x
        (read_message-Progresses s p lawful r bs h)
        (λ r' rest y q fewer. reader_loop-Ends fuel r' rest y q (omega arith))
