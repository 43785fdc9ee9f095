-- ===== src/Client/Loops/Reading.antt =====
-- What the reader's loop makes of a stream of frames.
use oxicast.Common.{
  ℕ, suc, ◌<◌, ◌≡◌, arith, String, Option, none, some, List, [], ◌∷◌, ◌++◌, All, length,
}
use oxicast.Types.{F64, F32}
use oxicast.Error.{Error, Result, ok, err, disconnected}
use oxicast.Message.{CastMessage}
use oxicast.Serde.{SerdeJson}
use oxicast.Framing.{Stream, Prost, IsStream, IsCodec, read_message}
use oxicast.Framing.Roundtrip.{Fits, Reads, frames, Reads-frames}
use oxicast.Framing.Errors.{read_message-eof}
use oxicast.Client.Loops.{Inbound, reader_stops, on_read, reader_loop, hear, hear_all}

module _ (s : Stream) (p : Prost) (j : SerdeJson) (to_f32 : F64 → F32) (show_error : Error → String)
    (lawful : IsStream s) (codec : IsCodec p) where
  on_read-err :
      (next : s.Reader → Inbound j.Value → Option (Inbound j.Value))
      (got : Result CastMessage × s.Reader) (x : Inbound j.Value)
      → got.0 ≡ err disconnected
      → on_read s p j to_f32 show_error next got x ≡ some (reader_stops none x)
  on_read-err next (ok m, r) x e = absurd (ground arith)
  on_read-err next (err why, r) x e = let same : why ≡ disconnected = ground arith in rw same

  after-Reads :
      (ms : List CastMessage) (rest : List ℕ) (r : s.Reader) (x : Inbound j.Value)
      → length rest < 4
      → Reads s p lawful codec ms rest r
      → reader_loop s p j to_f32 show_error (suc (length ms)) r x
        ≡ some (reader_stops none (hear_all s p j to_f32 show_error ms x))
  unfolding reader_loop
  after-Reads [] rest r x short h =
      on_read-err (reader_loop s p j to_f32 show_error 0) (read_message s p r) x
        (read_message-eof s p lawful r rest h short)
  after-Reads (m ∷ ms) rest r x short (r', e, h) =
      rw e (after-Reads ms rest r' (hear s p j to_f32 show_error m x) short h)

  -- On the frames of messages that the codec carries and that fit the limit, followed by fewer than
  -- four bytes, the reader's loop routes each message once, in order, and then stops as for a
  -- closed connection.
  pub reader_loop-frames :
      (ms : List CastMessage) (r : s.Reader) (rest : List ℕ) (x : Inbound j.Value)
      → All (Fits s p lawful codec) ms
      → length rest < 4
      → lawful.Pending r (frames s p lawful codec ms ++ rest)
      → reader_loop s p j to_f32 show_error (suc (length ms)) r x
        ≡ some (reader_stops none (hear_all s p j to_f32 show_error ms x))
  reader_loop-frames ms r rest x fits short h =
      after-Reads ms rest r x short (Reads-frames s p lawful codec ms r rest fits h)
