-- ===== src/Router/Correlation.antt =====
-- Which pending request an inbound message may answer.
use oxicast.Common.{
  ℕ, ◌<◌, Bool, Option, none, some, ◌∷◌, ◌≡◌, ◌%◌, ◌^◌, ◌==◌, if◌then◌else◌, ap, sym, subst, ◌∙◌,
  refl, ◌⊎◌, inl, inr, arith, ltb, Bool-cases,
}
use oxicast.Common.Int.{as_u32}
use oxicast.Types.{F64, F32, MediaStatus, ReceiverStatus}
use oxicast.Message.{CastMessage}
use oxicast.Tracker.{Tracker, get, resolve}
use oxicast.Tracker.Laws.{resolve_lem, counter-resolve, channels-resolve}
use oxicast.Serde.{SerdeJson}
use oxicast.Router.Parse.Fields.{get_u64}
use oxicast.Router.Parse.Media.{parse_media_status}
use oxicast.Router.Parse.Receiver.{parse_receiver_status}
use oxicast.Router.Dispatch.{parsed, route_cases}
use oxicast.Router.{
  World, MediaMessageType, status, load_failed, load_cancelled, invalid_request, unknown, route,
  route_heartbeat, route_connection, route_receiver, route_media, route_media_as, route_custom,
  route_custom_id, resolve_if_positive, on_media_status, on_receiver_status,
}

module _ {V : Type 0} where
  -- `u` is `t`, or `t` after the response `json` to a positive id.
  abbrev pub Answers : Option ℕ → V → Tracker V → Tracker V → Type 0
  Answers o json t u =
      (u ≡ t) ⊎ ((n : ℕ) × (o ≡ some n) × (0 < n) × (u ≡ (resolve (as_u32 n) json t).1))

  resolve_if_positive-Answers :
      (o : Option ℕ) (json : V) (w : World V)
      → Answers o json w.tracker (resolve_if_positive o json w).tracker
  unfolding resolve_if_positive
  resolve_if_positive-Answers none json w = inl refl
  resolve_if_positive-Answers (some n) json w = elim (Bool-cases (ltb 0 n)) [
    | inl e ↦ inr (n, refl, ground arith, rw e)
    | inr e ↦ inl (rw e)
  ]

  pub on_media_status-tracker :
      (o : Option MediaStatus) (w : World V) → (on_media_status o w).tracker ≡ w.tracker
  unfolding on_media_status
  on_media_status-tracker none w = refl
  on_media_status-tracker (some s) w = ground arith

  pub on_receiver_status-tracker :
      (o : Option ReceiverStatus) (w : World V) → (on_receiver_status o w).tracker ≡ w.tracker
  unfolding on_receiver_status
  on_receiver_status-tracker none w = refl
  on_receiver_status-tracker (some s) w = refl

module _ (j : SerdeJson) (to_f32 : F64 → F32) where
  -- The tracker is left alone, or gets one response: to the message's own request id, which is
  -- positive, with the message's own payload.
  abbrev pub AnswersOwn : Option j.Value → Tracker j.Value → Tracker j.Value → Type 0
  AnswersOwn none t u = u ≡ t
  AnswersOwn (some json) t u = Answers (get_u64 j json "requestId") json t u

  route_connection-AnswersOwn :
      (msg : CastMessage) (o : Option j.Value) (w : World j.Value)
      → AnswersOwn o w.tracker (route_connection j to_f32 msg o w).tracker
  unfolding route_connection
  route_connection-AnswersOwn msg none w = refl
  route_connection-AnswersOwn msg (some json) w = inl (ground arith)

  route_receiver-AnswersOwn :
      (o : Option j.Value) (w : World j.Value)
      → AnswersOwn o w.tracker (route_receiver j to_f32 o w).tracker
  unfolding route_receiver
  route_receiver-AnswersOwn none w = refl
  route_receiver-AnswersOwn (some json) w =
      let resolved = resolve_if_positive (get_u64 j json "requestId") json w in
      let same : (route_receiver j to_f32 (some json) w).tracker ≡ resolved.tracker =
        ground (arith, on_receiver_status-tracker (parse_receiver_status j to_f32 json) resolved) in
      rw same (resolve_if_positive-Answers (get_u64 j json "requestId") json w)

  route_media_as-AnswersOwn :
      (kind : MediaMessageType) (json : j.Value) (w : World j.Value)
      → AnswersOwn (some json) w.tracker (route_media_as j to_f32 kind json w).tracker
  unfolding route_media_as
  route_media_as-AnswersOwn status json w =
      rw
        (on_media_status-tracker (parse_media_status j to_f32 json)
          (resolve_if_positive (get_u64 j json "requestId") json w))
        (resolve_if_positive-Answers (get_u64 j json "requestId") json w)
  route_media_as-AnswersOwn unknown json w = inl refl
  route_media_as-AnswersOwn load_failed json w = resolve_if_positive-Answers _ json w
  route_media_as-AnswersOwn load_cancelled json w = resolve_if_positive-Answers _ json w
  route_media_as-AnswersOwn invalid_request json w = resolve_if_positive-Answers _ json w

  route_media-AnswersOwn :
      (o : Option j.Value) (w : World j.Value)
      → AnswersOwn o w.tracker (route_media j to_f32 o w).tracker
  unfolding route_media
  route_media-AnswersOwn none w = refl
  route_media-AnswersOwn (some json) w = route_media_as-AnswersOwn _ json w

  route_custom_id-Answers :
      (msg : CastMessage) (json : j.Value) (o : Option ℕ) (w : World j.Value)
      → Answers o json w.tracker (route_custom_id j to_f32 msg json o w).tracker
  unfolding resolve_if_positive
  route_custom_id-Answers msg json none w = inl refl
  route_custom_id-Answers msg json (some n) w = elim (Bool-cases (ltb 0 n)) [
    | inl e ↦ inr (n, refl, ground arith, rw e)
    | inr e ↦ inl (rw e)
  ]

  route_custom-AnswersOwn :
      (msg : CastMessage) (o : Option j.Value) (w : World j.Value)
      → AnswersOwn o w.tracker (route_custom j to_f32 msg o w).tracker
  unfolding route_custom
  route_custom-AnswersOwn msg none w = refl
  route_custom-AnswersOwn msg (some json) w =
      route_custom_id-Answers msg json (get_u64 j json "requestId") w

  unchanged : (o : Option j.Value) (t : Tracker j.Value) → AnswersOwn o t t
  unchanged none t = refl
  unchanged (some json) t = inl refl

  -- A message in any namespace makes at most one call of `resolve`: with the positive id that its own
  -- payload names, and with that payload.
  pub route-AnswersOwn :
      (msg : CastMessage) (w : World j.Value)
      → AnswersOwn (parsed j to_f32 msg) w.tracker (route j to_f32 msg w).tracker
  unfolding route_heartbeat
  route-AnswersOwn msg w =
      route_cases j to_f32 (λ u. AnswersOwn (parsed j to_f32 msg) w.tracker u.tracker) msg w
        (let same : (route_heartbeat j to_f32 msg w).tracker ≡ w.tracker = ground arith in
          rw same (unchanged (parsed j to_f32 msg) w.tracker))
        (route_connection-AnswersOwn msg (parsed j to_f32 msg) w)
        (route_receiver-AnswersOwn (parsed j to_f32 msg) w)
        (route_media-AnswersOwn (parsed j to_f32 msg) w)
        (route_custom-AnswersOwn msg (parsed j to_f32 msg) w)

  -- One pending request is answered: the payload goes to its channel, its entry is gone, and all else
  -- is as it was.
  pub record AnswersOne (json : j.Value) (t u : Tracker j.Value) (n c : ℕ) : Type 0 where
    pub names : get_u64 j json "requestId" ≡ some n
    pub positive : 0 < n
    pub waited : get (n % 2 ^ 32) t.pending ≡ some c
    pub told : u.sent ≡ (c, json) ∷ t.sent
    pub entries : (i : ℕ) → get i u.pending ≡ (if n % 2 ^ 32 == i then none else get i t.pending)
    pub counted : (u.counter ≡ t.counter) × (u.channels ≡ t.channels)

  resolve-AnswersOne :
      (json : j.Value) (t : Tracker j.Value) (n : ℕ)
      → get_u64 j json "requestId" ≡ some n
      → 0 < n
      → ((resolve (n % 2 ^ 32) json t).1 ≡ t)
        ⊎ ((c : ℕ) × AnswersOne json t (resolve (n % 2 ^ 32) json t).1 n c)
  resolve-AnswersOne json t n names positive = elim (resolve_lem (n % 2 ^ 32) json t) [
    | inl (missing, same) ↦ inl (ap (λ (p : Bool × Tracker j.Value). p.1) same)
    | inr (c, waited, found, told, others) ↦ inr (
      c,
      record {
        names = names;
        positive = positive;
        waited = waited;
        told = told;
        entries = others;
        counted = (counter-resolve (n % 2 ^ 32) json t, channels-resolve (n % 2 ^ 32) json t);
      },
    )
  ]

  Answers-AnswersOne :
      (o : Option j.Value) (t u : Tracker j.Value)
      → AnswersOwn o t u
      → (u ≡ t) ⊎ ((json : j.Value) × (n : ℕ) × (c : ℕ) × (o ≡ some json) × AnswersOne json t u n c)
  Answers-AnswersOne none t u e = inl e
  Answers-AnswersOne (some json) t u (inl e) = inl e
  Answers-AnswersOne (some json) t u (inr (n, names, positive, e)) =
      elim (resolve-AnswersOne json t n names positive) [
        | inl same ↦ inl (e ∙ same)
        | inr (c, one) ↦ inr (json, n, c, refl, subst (λ x. AnswersOne json t x n c) (sym e) one)
      ]

  -- A message in any namespace leaves the tracker as it was, or answers one pending request: its
  -- own payload, which names a positive number, goes to the channel that waits under that number
  -- modulo 2^32, as the cast to `u32` gives it; that entry is removed, and every other entry, the
  -- counter and the deliveries so far stay as they were.
  pub route-AnswersOne :
      (msg : CastMessage) (w : World j.Value)
      → let u = (route j to_f32 msg w).tracker in
        (u ≡ w.tracker)
        ⊎ ((json : j.Value) × (n : ℕ) × (c : ℕ) × (parsed j to_f32 msg ≡ some json)
            × AnswersOne json w.tracker u n c)
  route-AnswersOne msg w = Answers-AnswersOne (parsed j to_f32 msg) _ _ (route-AnswersOwn msg w)
