-- ===== src/Framing.antt =====
-- src/client/framing.rs: length-prefixed messages. The byte streams are tokio's and the protobuf
-- encoding is prost's: records of operations, with their documented behaviour as laws. The texts of
-- errors are kept without the values that the source formats into them.
pub mod Bytes
pub mod Header
pub mod Roundtrip
pub mod Errors
pub mod Progress
use oxicast.Common.{
  ℕ, ◌≤◌, ◌<◌, ◌≡◌, ◌≢◌, String, List, [], ◌∷◌, ◌++◌, Option, none, some, ltb, ◌==◌, if◌then◌else◌,
  length,
}
use oxicast.Error.{Result, ok, err, ◌>>=◌, disconnected, framing, protobuf}
use oxicast.Message.{CastMessage}
use Bytes.{to_be_bytes, from_be_bytes}

-- `std::io::ErrorKind`, as far as the code tells kinds apart, and any other error by its text.
pub data IoError : Type 0 where
  unexpected_eof broken_pipe : IoError
  other : String → IoError

pub data IoResult (A : Type 0) : Type 0 where
  done : A → IoResult A
  failed : IoError → IoResult A

pub record Prost : Type 0 where
  -- `encode_to_vec` and `CastMessage::decode`, whose error is kept as its text.
  pub encode : CastMessage → List ℕ
  pub decode : List ℕ → Result CastMessage

-- The decoder inverts the encoder on the messages that the wire format can carry, such as those
-- whose numbers fit an `i32`. A message has required fields, so its encoding is not empty.
pub record IsCodec (p : Prost) : Type 1 where
  pub Encodable : CastMessage → Type 0
  pub decode-encode : (m : CastMessage) → Encodable m → p.decode (p.encode m) ≡ ok m
  pub encode-ne-nil : (m : CastMessage) → p.encode m ≢ []

pub record Stream : Type 1 where
  pub Reader : Type 0
  pub read_exact : ℕ → Reader → IoResult (List ℕ) × Reader
  pub Writer : Type 0
  pub write_all : List ℕ → Writer → IoResult (Unit {0}) × Writer
  pub flush : Writer → IoResult (Unit {0}) × Writer

-- `read_exact` on a stream whose bytes to come are known: it takes exactly that many bytes, or
-- reports the end of the stream.
pub record IsStream (s : Stream) : Type 1 where
  pub Pending : s.Reader → List ℕ → Type 0
  pub enough :
      (r : s.Reader) (bs rest : List ℕ)
      → Pending r (bs ++ rest)
      → (r' : s.Reader) × (s.read_exact (length bs) r ≡ (done bs, r')) × Pending r' rest
  pub short :
      (n : ℕ) (r : s.Reader) (bs : List ℕ)
      → Pending r bs
      → length bs < n
      → (s.read_exact n r).0 ≡ failed unexpected_eof

-- A writer that keeps what a successful `write_all` was given, after what was written before.
pub record IsSink (s : Stream) : Type 1 where
  pub Written : s.Writer → List ℕ → Type 0
  pub write-Written :
      (w w' : s.Writer) (xs bs : List ℕ)
      → Written w xs
      → s.write_all bs w ≡ (done tt, w')
      → Written w' (xs ++ bs)
  pub flush-Written :
      (w w' : s.Writer) (xs : List ℕ) → Written w xs → s.flush w ≡ (done tt, w') → Written w' xs

abbrev pub max_len : ℕ
max_len = 65536

-- The `map_err` after a read, and after the write.
abbrev pub read_error : String → IoError → Result (List ℕ)
read_error what unexpected_eof = err disconnected
read_error what e = err (framing what)

abbrev pub write_error : IoError → Result (Unit {0})
write_error broken_pipe = err disconnected
write_error e = err (framing "write")

abbrev pub from_read : String → IoResult (List ℕ) → Result (List ℕ)
from_read what (done bs) = ok bs
from_read what (failed e) = read_error what e

module _ (s : Stream) (p : Prost) where
  -- `s.read_exact(..).await.map_err(..)`.
  abbrev pub read_part : String → ℕ → s.Reader → Result (List ℕ) × s.Reader
  read_part what n r = let (got, r') = s.read_exact n r in (from_read what got, r')

  abbrev pub read_payload : ℕ → s.Reader → Result CastMessage × s.Reader
  read_payload len r =
      let (got, r') = read_part "read payload" len r in ((got >>= λ buf. p.decode buf), r')

  abbrev pub check_len : ℕ → s.Reader → Result CastMessage × s.Reader
  check_len len r =
      if len == 0
      then (err (framing "zero-length message"), r)
      else if ltb max_len len
      then (err (framing "message too large"), r)
      else read_payload len r

  abbrev pub after_header : Result (List ℕ) → s.Reader → Result CastMessage × s.Reader
  after_header (ok buf) r = check_len (from_be_bytes buf) r
  after_header (err e) r = (err e, r)

  unfoldable pub read_message : s.Reader → Result CastMessage × s.Reader
  read_message r = let (header, r') = read_part "read length" 4 r in after_header header r'

  -- What one message puts on the stream.
  abbrev pub frame : CastMessage → List ℕ
  frame m = to_be_bytes (length (p.encode m)) ++ p.encode m

  abbrev pub finish : IoResult (Unit {0}) × s.Writer → Result (Unit {0}) × s.Writer
  finish (done u, w) = (ok tt, w)
  finish (failed e, w) = (err (framing "flush"), w)

  abbrev pub after_write : IoResult (Unit {0}) × s.Writer → Result (Unit {0}) × s.Writer
  after_write (done u, w) = finish (s.flush w)
  after_write (failed e, w) = (write_error e, w)

  unfoldable pub write_message : CastMessage → s.Writer → Result (Unit {0}) × s.Writer
  write_message m w =
      if ltb max_len (length (p.encode m))
      then (err (framing "outbound message too large"), w)
      else after_write (s.write_all (frame m) w)
