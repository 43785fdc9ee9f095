-- ===== src/Framing/Errors.antt =====
-- What `read_message` and `write_message` refuse.
use oxicast.Common.{ℕ, ◌≤◌, ◌<◌, ◌^◌, ◌≡◌, arith, List, ◌++◌, length, ◌∙◌, ap}
use oxicast.Error.{err, framing, disconnected}
use oxicast.Message.{CastMessage}
use oxicast.Framing.Bytes.{to_be_bytes}
use oxicast.Framing.Header.{header_step}
use oxicast.Framing.{Stream, Prost, IsStream, max_len, read_message, write_message, read_payload}

module _ (s : Stream) (p : Prost) where
  -- An oversized message is refused before anything is written.
  pub write_message-oversized :
      (m : CastMessage) (w : s.Writer)
      → max_len < length (p.encode m)
      → write_message s p m w ≡ (err (framing "outbound message too large"), w)
  unfolding write_message
  write_message-oversized m w h = ground arith

module _ (s : Stream) (p : Prost) (lawful : IsStream s) where
  -- For a header that announces n, a `u32`: a length of 0, or above the limit, is refused with the
  -- header alone taken from the stream, and any other length is the size of the payload read.
  pub read_message-header :
      (n : ℕ) (r : s.Reader) (rest : List ℕ)
      → n < 2 ^ 32
      → lawful.Pending r (to_be_bytes n ++ rest)
      → (r' : s.Reader) × lawful.Pending r' rest
        × (n ≡ 0 → read_message s p r ≡ (err (framing "zero-length message"), r'))
        × (max_len < n → read_message s p r ≡ (err (framing "message too large"), r'))
        × (0 < n → n ≤ max_len → read_message s p r ≡ read_payload s p n r')
  unfolding to_be_bytes
  read_message-header n r rest h pending =
      let (r', e, q) = lawful.enough r (to_be_bytes n) rest pending in
      let step = header_step s p n r r' e h in
      (
        r',
        q,
        (λ z. step ∙ ground arith),
        (λ big. step ∙ ground arith),
        (λ pos small. step ∙ ground arith),
      )

  -- A stream that ends inside the header is a disconnection.
  pub read_message-eof :
      (r : s.Reader) (bs : List ℕ)
      → lawful.Pending r bs
      → length bs < 4
      → (read_message s p r).0 ≡ err disconnected
  unfolding read_message
  read_message-eof r bs h short = rw (lawful.short 4 r bs h short)

  -- A stream that ends before the announced payload, whose length is positive and within the limit,
  -- is a disconnection, never a message.
  pub read_message-truncated :
      (n : ℕ) (r : s.Reader) (rest : List ℕ)
      → 0 < n
      → n ≤ max_len
      → length rest < n
      → lawful.Pending r (to_be_bytes n ++ rest)
      → (read_message s p r).0 ≡ err disconnected
  read_message-truncated n r rest pos small short pending =
      let (r', q, _, _, go) = read_message-header n r rest (omega arith) pending in
      ap (λ t. t.0) (go pos small) ∙ rw (lawful.short n r' rest q short)
