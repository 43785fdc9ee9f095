-- ===== src/Framing/Progress.antt =====
-- A read either fails or takes bytes from the stream.
use oxicast.Common.{
  ℕ, ◌+◌, ◌<◌, ◌≤◌, ◌≡◌, refl, sym, ap, subst, arith, List, ◌⊎◌, inl, inr, Bool-cases, length, take,
  drop, take-append-drop, length-take, length-append, ltb, ltb→lt, ◌==◌,
}
use oxicast.Error.{Error, Result, ok, err, framing, disconnected}
use oxicast.Message.{CastMessage}
use oxicast.Framing.Bytes.{from_be_bytes}
use oxicast.Framing.{Stream, Prost, IsStream, max_len, done, read_message, read_payload, check_len}
use oxicast.Framing.Errors.{read_message-eof}

module _ (s : Stream) (p : Prost) (lawful : IsStream s) where
  -- A read from a stream of so many bytes is an error, or gives a message and leaves fewer.
  abbrev pub Progresses : ℕ → Result CastMessage × s.Reader → Type 0
  Progresses size got =
      ((e : Error) × (got.0 ≡ err e))
      ⊎ ((m : CastMessage) × (rest : List ℕ) × (got.0 ≡ ok m)
          × lawful.Pending got.1 rest
          × (length rest < size))

  -- The first bytes of a stream that has that many.
  front :
      (n : ℕ) (r : s.Reader) (bs : List ℕ)
      → lawful.Pending r bs
      → n ≤ length bs
      → (r' : s.Reader) × (s.read_exact n r ≡ (done (take n bs), r'))
        × lawful.Pending r' (drop n bs)
        × (length (drop n bs) + n ≡ length bs)
  front n r bs h fits =
      let (r', e, q) =
        lawful.enough r (take n bs) (drop n bs)
          (subst (lawful.Pending r) (sym (take-append-drop n bs)) h) in
      (
        r',
        subst (λ k. s.read_exact k r ≡ (done (take n bs), r')) (length-take n bs fits) e,
        q,
        omega (
          arith,
          length-append (take n bs) (drop n bs),
          ap length (take-append-drop n bs),
          length-take n bs fits,
        ),
      )

  decoded_lem :
      (size : ℕ) (got : Result CastMessage) (r : s.Reader) (rest : List ℕ)
      → lawful.Pending r rest
      → length rest < size
      → Progresses size (got, r)
  decoded_lem size (ok m) r rest h small = inr (m, rest, refl, h, small)
  decoded_lem size (err e) r rest h small = inl (e, refl)

  read_payload-Progresses :
      (n : ℕ) (r : s.Reader) (bs : List ℕ) (size : ℕ)
      → lawful.Pending r bs
      → length bs < size
      → Progresses size (read_payload s p n r)
  read_payload-Progresses n r bs size h small = elim (Bool-cases (ltb (length bs) n)) [
    | inl e ↦ inl (disconnected, rw (lawful.short n r bs h (ltb→lt _ _ e)))
    | inr e ↦
        let (r', e₁, q, total) = front n r bs h (ground arith) in
        rw e₁ (decoded_lem size (p.decode (take n bs)) r' (drop n bs) q (omega arith))
  ]

  check_len-Progresses :
      (n : ℕ) (r : s.Reader) (bs : List ℕ) (size : ℕ)
      → lawful.Pending r bs
      → length bs < size
      → Progresses size (check_len s p n r)
  check_len-Progresses n r bs size h small = elim (Bool-cases (n == 0)) [
    | inl e ↦ rw e (inl (framing "zero-length message", refl))
    | inr e ↦ rw e elim (Bool-cases (ltb max_len n)) [
      | inl e₁ ↦ rw e₁ (inl (framing "message too large", refl))
      | inr e₁ ↦ rw e₁ (read_payload-Progresses n r bs size h small)
    ]
  ]

  pub read_message-Progresses :
      (r : s.Reader) (bs : List ℕ)
      → lawful.Pending r bs
      → Progresses (length bs) (read_message s p r)
  unfolding read_message
  read_message-Progresses r bs h = elim (Bool-cases (ltb (length bs) 4)) [
    | inl e ↦ inl (disconnected, read_message-eof s p lawful r bs h (ltb→lt _ _ e))
    | inr e ↦
        let (r', e₁, q, total) = front 4 r bs h (ground arith) in
        rw e₁ (
          check_len-Progresses (from_be_bytes (take 4 bs)) r' (drop 4 bs) (length bs) q
            (omega arith))
  ]
