-- ===== src/Tests/Framing.antt =====
-- Streams that are lists of bytes, and a codec of two messages.
mod Loops
use oxicast.Common.{
  ℕ, ◌<◌, ◌≤◌, ◌≡◌, refl, ap, sym, subst, ◌∙◌, ◌==◌, arith, List, [], ◌∷◌, ◌++◌, ◌⊎◌, inl, inr, ltb,
  length, take, drop, if◌then◌else◌, str_eq,
}
use oxicast.Error.{Result, ok, err, framing, protobuf, disconnected}
use oxicast.Message.{CastMessage, build_message}
use oxicast.Framing.Bytes.{to_be_bytes, from_be_bytes}
use oxicast.Framing.{
  Stream, Prost, IsStream, IsCodec, IsSink, IoResult, done, failed, unexpected_eof, frame,
  read_message, write_message, read_payload, max_len,
}
use oxicast.Framing.Roundtrip.{Reads, frames, Reads-frames, write_message-ok}
use oxicast.Framing.Errors.{read_message-header, read_message-truncated}

framing_tests : Unit {0}
unfolding read_message write_message to_be_bytes from_be_bytes build_message
framing_tests = tt

abbrev bytes_read : ℕ → List ℕ → IoResult (List ℕ) × List ℕ
bytes_read n bs =
    if ltb (length bs) n then (failed unexpected_eof, bs) else (done (take n bs), drop n bs)

abbrev bytes : Stream
bytes = record {
  Reader = List ℕ;
  read_exact = bytes_read;
  Writer = List ℕ;
  write_all = λ bs w. (done tt, w ++ bs);
  flush = λ w. (done tt, w);
}

abbrev first_message : CastMessage
first_message = build_message "urn:x" "sender-0" "receiver-0" "{}"

abbrev second_message : CastMessage
second_message = build_message "urn:y" "sender-0" "receiver-0" "{}"

abbrev decode_two : List ℕ → Result CastMessage
decode_two bs =
    if length bs == 1
    then ok first_message
    else if length bs == 2
    then ok second_message
    else err (protobuf "decode")

abbrev two : Prost
two = record {
  encode = λ m. if str_eq m.namespace "urn:x" then 1 ∷ [] else 2 ∷ 2 ∷ [];
  decode = decode_two;
}

bytes_read-enough : (bs rest : List ℕ) → bytes_read (length bs) (bs ++ rest) ≡ (done bs, rest)
bytes_read-enough [] rest = ground arith
bytes_read-enough (b ∷ bs) rest = ground (arith, bytes_read-enough bs rest)

bytes-IsStream : IsStream bytes
bytes-IsStream = record {
  Pending = λ r bs. r ≡ bs;
  enough = λ r bs rest e. (rest, ap (bytes_read (length bs)) e ∙ bytes_read-enough bs rest, refl);
  short = λ n r bs e h. ground (arith, ap length e);
}

bytes-IsSink : IsSink bytes
bytes-IsSink = record {
  Written = λ w xs. w ≡ xs;
  write-Written = λ w w' xs bs e h. sym (ap (λ t. t.1) h) ∙ ap (λ x. x ++ bs) e;
  flush-Written = λ w w' xs e h. sym (ap (λ t. t.1) h) ∙ e;
}

two-IsCodec : IsCodec two
unfolding framing_tests
two-IsCodec = record {
  Encodable = λ m. (m ≡ first_message) ⊎ (m ≡ second_message);
  decode-encode = λ m h. elim h [
    | inl e ↦ subst (λ x. two.decode (two.encode x) ≡ ok x) (sym e) refl
    | inr e ↦ subst (λ x. two.decode (two.encode x) ≡ ok x) (sym e) refl
  ];
  encode-ne-nil = λ m. ground arith;
}

abbrev wire : List ℕ
wire = 0 ∷ 0 ∷ 0 ∷ 1 ∷ 1 ∷ 0 ∷ 0 ∷ 0 ∷ 2 ∷ 2 ∷ 2 ∷ 0 ∷ []

-- The frames of both messages, followed by the start of a third.
wire_tests :
    (frames bytes two bytes-IsStream two-IsCodec (first_message ∷ second_message ∷ []) ++ 0 ∷ []
      ≡ wire)
    × ((write_message bytes two second_message (7 ∷ [])).1 ≡ 7 ∷ 0 ∷ 0 ∷ 0 ∷ 2 ∷ 2 ∷ 2 ∷ [])
unfolding framing_tests
wire_tests = (refl, refl)

Reads-frames_example :
    Reads bytes two bytes-IsStream two-IsCodec (first_message ∷ second_message ∷ []) (0 ∷ []) wire
unfolding framing_tests bytes-IsStream two-IsCodec bytes-IsSink
Reads-frames_example =
    Reads-frames bytes two bytes-IsStream two-IsCodec (first_message ∷ second_message ∷ []) wire
      (0 ∷ []) ((inl refl, omega arith), ((inr refl, omega arith), tt)) refl

abbrev too_long : ℕ
too_long = 70000
