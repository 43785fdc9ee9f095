-- ===== src/Framing/Roundtrip.antt =====
-- What is written comes back, one message after another.
use oxicast.Common.{
  ℕ, ◌≤◌, ◌≡◌, ◌≢◌, refl, ◌∙◌, subst, arith, List, [], ◌∷◌, ◌++◌, All, length, ◌==◌, false,
}
use mathlib.Core.List.{append_assoc}
use oxicast.Error.{ok}
use oxicast.Message.{CastMessage}
use oxicast.Framing.Bytes.{to_be_bytes}
use oxicast.Framing.Header.{header_step}
use oxicast.Framing.{
  Stream, Prost, IsStream, IsCodec, IsSink, IoResult, done, failed, max_len, frame, read_message,
  write_message, read_payload, check_len, after_write, finish,
}

module _ (s : Stream) (p : Prost) (lawful : IsStream s) (codec : IsCodec p) where
  -- What the encoding can carry and `write_message` accepts.
  abbrev pub Fits : CastMessage → Type 0
  Fits m = codec.Encodable m × (length (p.encode m) ≤ max_len)

  read_payload_lem :
      (m : CastMessage) (r : s.Reader) (rest : List ℕ)
      → codec.Encodable m
      → lawful.Pending r (p.encode m ++ rest)
      → (r' : s.Reader) × (read_payload s p (length (p.encode m)) r ≡ (ok m, r'))
        × lawful.Pending r' rest
  read_payload_lem m r rest c h =
      let (r', e, q) = lawful.enough r (p.encode m) rest h in
      (r', rw (e, codec.decode-encode m c), q)

  length-ne-zero : (m : CastMessage) → (length (p.encode m) == 0) ≡ false
  length-ne-zero m = nonempty (p.encode m) (codec.encode-ne-nil m)
    where
      nonempty : (bs : List ℕ) → bs ≢ [] → (length bs == 0) ≡ false
      nonempty [] h = absurd (h refl)
      nonempty (b ∷ bs) h = ground arith

  check_len_lem :
      (m : CastMessage) (r : s.Reader)
      → Fits m
      → check_len s p (length (p.encode m)) r ≡ read_payload s p (length (p.encode m)) r
  check_len_lem m r h = ground (arith, length-ne-zero m)

  -- A frame at the head of the stream is read as its message, and the reader stands behind it.
  pub read_message-frame :
      (m : CastMessage) (r : s.Reader) (rest : List ℕ)
      → Fits m
      → lawful.Pending r (frame s p m ++ rest)
      → (r' : s.Reader) × (read_message s p r ≡ (ok m, r')) × lawful.Pending r' rest
  unfolding to_be_bytes
  read_message-frame m r rest fits h =
      let n = length (p.encode m) in
      let (r₁, e₁, h₁) =
        lawful.enough r (to_be_bytes n) (p.encode m ++ rest)
          (subst (lawful.Pending r) (append_assoc (to_be_bytes n) (p.encode m) rest) h) in
      let (r₂, e₂, h₂) = read_payload_lem m r₁ rest fits.0 h₁ in
      (r₂, header_step s p n r r₁ e₁ (omega arith) ∙ check_len_lem m r₁ fits ∙ e₂, h₂)

  -- The reader gives these messages, one call after another, and then stands before `rest`.
  abbrev pub Reads : List CastMessage → List ℕ → s.Reader → Type 0
  Reads [] rest r = lawful.Pending r rest
  Reads (m ∷ ms) rest r = (r' : s.Reader) × (read_message s p r ≡ (ok m, r')) × Reads ms rest r'

  abbrev pub frames : List CastMessage → List ℕ
  frames [] = []
  frames (m ∷ ms) = frame s p m ++ frames ms

  -- On a stream that holds the frames of messages that the codec carries and that fit the limit,
  -- one after another, `read_message` gives the messages in order, and leaves the reader at what
  -- follows.
  pub Reads-frames :
      (ms : List CastMessage) (r : s.Reader) (rest : List ℕ)
      → All Fits ms
      → lawful.Pending r (frames ms ++ rest)
      → Reads ms rest r
  Reads-frames [] r rest fits h = h
  Reads-frames (m ∷ ms) r rest fits h =
      let (r', e, h') =
        read_message-frame m r (frames ms ++ rest) fits.0
          (subst (lawful.Pending r) (append_assoc (frame s p m) (frames ms) rest) h) in
      (r', e, Reads-frames ms r' rest fits.1 h')

module _ (s : Stream) (p : Prost) (sink : IsSink s) where
  finish-ok :
      (got : IoResult (Unit {0}) × s.Writer) (w' : s.Writer)
      → finish s p got ≡ (ok tt, w')
      → got ≡ (done tt, w')
  finish-ok (done u, w₁) w' e = ground arith
  finish-ok (failed x, w₁) w' e = ground arith

  after_write-ok :
      (got : IoResult (Unit {0}) × s.Writer) (w' : s.Writer)
      → after_write s p got ≡ (ok tt, w')
      → (w₁ : s.Writer) × (got ≡ (done tt, w₁)) × (s.flush w₁ ≡ (done tt, w'))
  after_write-ok (done u, w₁) w' e = (w₁, refl, finish-ok (s.flush w₁) w' e)
  after_write-ok (failed x, w₁) w' e = ground arith

  write_message-inv :
      (m : CastMessage) (w w' : s.Writer)
      → write_message s p m w ≡ (ok tt, w')
      → (length (p.encode m) ≤ max_len)
        × (after_write s p (s.write_all (frame s p m) w) ≡ (ok tt, w'))
  unfolding write_message
  write_message-inv m w w' e = (ground arith, ground arith)

  -- A write that succeeds is of a message whose encoding fits the limit, and appends just its frame
  -- to what was written.
  pub write_message-ok :
      (m : CastMessage) (w w' : s.Writer) (xs : List ℕ)
      → sink.Written w xs
      → write_message s p m w ≡ (ok tt, w')
      → (length (p.encode m) ≤ max_len) × sink.Written w' (xs ++ frame s p m)
  write_message-ok m w w' xs h e =
      let (small, written) = write_message-inv m w w' e in
      let (w₁, e₁, e₂) = after_write-ok (s.write_all (frame s p m) w) w' written in
      (small, sink.flush-Written w₁ w' _ (sink.write-Written w w₁ xs _ h e₁) e₂)
