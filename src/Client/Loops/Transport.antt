-- ===== src/Client/Loops/Transport.antt =====
-- The writer's loop, and the two loops at the ends of one connection.
use oxicast.Common.{
  ℕ, suc, ◌≤◌, ◌≡◌, refl, ◌∙◌, sym, subst, arith, String, true, some, none, List, [], ◌∷◌, ◌++◌,
  All, length,
}
use mathlib.Core.List.{append-nil, append_assoc}
use oxicast.Types.{F64, F32}
use oxicast.Error.{Error, Result, ok, err}
use oxicast.Message.{CastMessage}
use oxicast.Serde.{SerdeJson}
use oxicast.Framing.{Stream, Prost, IsStream, IsCodec, IsSink, max_len, frame, write_message}
use oxicast.Framing.Roundtrip.{Fits, frames, write_message-ok}
use oxicast.Client.Loops.{
  Outbound, Inbound, on_write, writer_loop, reader_loop, reader_stops, hear_all,
}
use oxicast.Client.Loops.Reading.{reader_loop-frames}

module _ (s : Stream) (p : Prost) (sink : IsSink s) where
  -- What the frames of messages put on the stream.
  abbrev pub wire : List CastMessage → List ℕ
  wire [] = []
  wire (m ∷ ms) = frame s p m ++ wire ms

  abbrev pub IsSmall : CastMessage → Type 0
  IsSmall m = length (p.encode m) ≤ max_len

  on_write-alive :
      (next : s.Writer → Outbound → s.Writer × Outbound) (got : Result (Unit {0}) × s.Writer)
      (x : Outbound)
      → (on_write s p next got x).1.alive ≡ true
      → (w' : s.Writer) × (got ≡ (ok tt, w')) × (on_write s p next got x ≡ next w' x)
  on_write-alive next (ok u, w') x h = (w', refl, refl)
  on_write-alive next (err e, w') x h = absurd (ground arith)

  -- If the client is alive after the writer's loop, then every message fitted the limit, and their
  -- frames were put on the stream in order: a message that is lost always clears the flag.
  pub writer_loop-alive :
      (ms : List CastMessage) (w : s.Writer) (xs : List ℕ) (x : Outbound)
      → sink.Written w xs
      → (writer_loop s p ms w x).1.alive ≡ true
      → All IsSmall ms × sink.Written (writer_loop s p ms w x).0 (xs ++ wire ms)
  unfolding writer_loop
  writer_loop-alive [] w xs x h alive = (tt, subst (sink.Written w) (sym (append-nil xs)) h)
  writer_loop-alive (m ∷ ms) w xs x h alive =
      let (w', e, f) = on_write-alive (writer_loop s p ms) (write_message s p m w) x alive in
      let (small, written) = write_message-ok s p sink m w w' xs h e in
      let (smalls, all_written) =
        writer_loop-alive ms w' (xs ++ frame s p m) x written
          (subst (λ (y : s.Writer × Outbound). y.1.alive ≡ true) f alive) in
      (
        (small, smalls),
        rw f (
            subst (sink.Written (writer_loop s p ms w' x).0)
              (append_assoc xs (frame s p m) (wire ms)) all_written),
      )

module _ (s : Stream) (p : Prost) (lawful : IsStream s) (codec : IsCodec p) (sink : IsSink s) where
  wire-frames : (ms : List CastMessage) → wire s p sink ms ≡ frames s p lawful codec ms
  wire-frames [] = refl
  wire-frames (m ∷ ms) = rw (wire-frames ms)

  All-Fits :
      (ms : List CastMessage)
      → All codec.Encodable ms
      → All (IsSmall s p sink) ms
      → All (Fits s p lawful codec) ms
  All-Fits [] h k = tt
  All-Fits (m ∷ ms) h k = ((h.0, k.0), All-Fits ms h.1 k.1)

  -- When the writer's loop has written messages that the codec carries to an empty stream and the
  -- client is still alive, the reader's loop on that stream hears just those messages, in order,
  -- and then stops as for a closed connection.
  pub reader_loop-writer_loop :
      (j : SerdeJson) (to_f32 : F64 → F32) (show_error : Error → String) (ms : List CastMessage)
      (w : s.Writer) (x : Outbound) (r : s.Reader) (y : Inbound j.Value)
      → All codec.Encodable ms
      → sink.Written w []
      → (writer_loop s p ms w x).1.alive ≡ true
      → ((xs : List ℕ) → sink.Written (writer_loop s p ms w x).0 xs → lawful.Pending r xs)
      → reader_loop s p j to_f32 show_error (suc (length ms)) r y
        ≡ some (reader_stops none (hear_all s p j to_f32 show_error ms y))
  reader_loop-writer_loop j to_f32 show_error ms w x r y encodable empty alive wired =
      let (small, written) = writer_loop-alive s p sink ms w [] x empty alive in
      reader_loop-frames s p j to_f32 show_error lawful codec ms r [] y
        (All-Fits ms encodable small) (omega arith)
        (subst (lawful.Pending r) (wire-frames ms ∙ sym (append-nil (frames s p lawful codec ms)))
          (wired (wire s p sink ms) written))
