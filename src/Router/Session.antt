-- ===== src/Router/Session.antt =====
-- The media session id that `route` tracks, and the messages that it sends back.
use oxicast.Common.{
  ℕ, true, false, Option, none, some, List, [], ◌∷◌, ◌≡◌, refl, ◌⊎◌, inl, inr, arith, Bool-cases,
  unwrap_or, str_eq, ltb, ◌∙◌, subst, ap, if◌then◌else◌,
}
use oxicast.Common.Int.{ℤ, pos, is_positive}
use oxicast.Types.{F64, F32, MediaStatus, ReceiverStatus}
use oxicast.Ns
use oxicast.Message.{CastMessage}
use oxicast.State.{set_media_session_id}
use oxicast.Serde.{SerdeJson}
use oxicast.Heartbeat.{is_ping, pong}
use oxicast.Router.Parse.Fields.{get_str, get_u64}
use oxicast.Router.Parse.Media.{parse_media_status}
use oxicast.Router.Parse.Receiver.{parse_receiver_status}
use oxicast.Router.Dispatch.{parsed, route_cases}
use oxicast.Router.{
  World, MediaMessageType, status, load_failed, load_cancelled, invalid_request, unknown, route,
  route_heartbeat, route_connection, route_receiver, route_media, route_media_as, route_custom,
  route_custom_id, is_close, resolve_if_positive, on_media_status, on_receiver_status,
}

-- The id is as it was, or the positive one of a new status.
abbrev pub Tracks : ℤ → ℤ → Type 0
Tracks new old = (new ≡ old) ⊎ (is_positive new ≡ true)

-- The id of no session, or of a real one.
abbrev pub IsSession : ℤ → Type 0
IsSession id = (id ≡ pos 0) ⊎ (is_positive id ≡ true)

-- A handler sends nothing, and tracks only real sessions.
abbrev pub Quiet : {V : Type 0} → World V → World V → Type 0
Quiet w u = (u.written ≡ w.written) × Tracks u.state.media_session_id w.state.media_session_id

module _ {V : Type 0} where
  resolve_if_positive-same :
      (o : Option ℕ) (json : V) (w : World V)
      → ((resolve_if_positive o json w).written ≡ w.written)
        × ((resolve_if_positive o json w).state ≡ w.state)
  unfolding resolve_if_positive
  resolve_if_positive-same none json w = (refl, refl)
  resolve_if_positive-same (some n) json w = (ground arith, ground arith)

  on_media_status-Quiet : (o : Option MediaStatus) (w : World V) → Quiet w (on_media_status o w)
  unfolding on_media_status set_media_session_id
  on_media_status-Quiet none w = (refl, inl refl)
  on_media_status-Quiet (some s) w = elim (Bool-cases (is_positive s.media_session_id)) [
    | inl e ↦ (ground arith, inr (ground arith))
    | inr e ↦ (ground arith, inl (ground arith))
  ]

  on_receiver_status-Quiet :
      (o : Option ReceiverStatus) (w : World V) → Quiet w (on_receiver_status o w)
  unfolding on_receiver_status
  on_receiver_status-Quiet none w = (refl, inl refl)
  on_receiver_status-Quiet (some s) w = (refl, inl refl)

  Quiet-after_resolve :
      (o : Option ℕ) (json : V) (w u : World V) → Quiet (resolve_if_positive o json w) u → Quiet w u
  Quiet-after_resolve o json w u q =
      let (p, r) = resolve_if_positive-same o json w in
      (q.0 ∙ p, subst (λ s. Tracks u.state.media_session_id s.media_session_id) r q.1)

  resolve_if_positive-Quiet :
      (o : Option ℕ) (json : V) (w : World V) → Quiet w (resolve_if_positive o json w)
  resolve_if_positive-Quiet o json w =
      Quiet-after_resolve o json w (resolve_if_positive o json w) (refl, inl refl)

module _ (j : SerdeJson) (to_f32 : F64 → F32) where
  route_connection-Quiet :
      (msg : CastMessage) (o : Option j.Value) (w : World j.Value)
      → Quiet w (route_connection j to_f32 msg o w)
  unfolding route_connection
  route_connection-Quiet msg none w = (refl, inl refl)
  route_connection-Quiet msg (some json) w = elim (Bool-cases (is_close (get_str j json "type"))) [
    | inl e ↦ rw e (refl, inl refl)
    | inr e ↦ rw e (refl, inl refl)
  ]

  route_receiver-Quiet :
      (o : Option j.Value) (w : World j.Value) → Quiet w (route_receiver j to_f32 o w)
  unfolding route_receiver
  route_receiver-Quiet none w = (refl, inl refl)
  route_receiver-Quiet (some json) w =
      let id = get_u64 j json "requestId" in
      elim (Bool-cases (str_eq (unwrap_or (get_str j json "type") "") Ns.msg_receiver_status)) [
        | inl e ↦ rw e (
            Quiet-after_resolve id json w
              (on_receiver_status (parse_receiver_status j to_f32 json)
                (resolve_if_positive id json w))
              (on_receiver_status-Quiet (parse_receiver_status j to_f32 json)
                (resolve_if_positive id json w)))
        | inr e ↦ rw e (resolve_if_positive-Quiet id json w)
      ]

  route_media_as-Quiet :
      (kind : MediaMessageType) (json : j.Value) (w : World j.Value)
      → Quiet w (route_media_as j to_f32 kind json w)
  unfolding route_media_as
  route_media_as-Quiet unknown json w = (refl, inl refl)
  route_media_as-Quiet status json w =
      let id = get_u64 j json "requestId" in
      Quiet-after_resolve id json w
        (on_media_status (parse_media_status j to_f32 json) (resolve_if_positive id json w))
        (on_media_status-Quiet (parse_media_status j to_f32 json) (resolve_if_positive id json w))
  route_media_as-Quiet load_failed json w =
      resolve_if_positive-Quiet (get_u64 j json "requestId") json w
  route_media_as-Quiet load_cancelled json w =
      resolve_if_positive-Quiet (get_u64 j json "requestId") json w
  route_media_as-Quiet invalid_request json w =
      resolve_if_positive-Quiet (get_u64 j json "requestId") json w

  route_media-Quiet : (o : Option j.Value) (w : World j.Value) → Quiet w (route_media j to_f32 o w)
  unfolding route_media
  route_media-Quiet none w = (refl, inl refl)
  route_media-Quiet (some json) w = route_media_as-Quiet _ json w

  route_custom_id-Quiet :
      (msg : CastMessage) (json : j.Value) (o : Option ℕ) (w : World j.Value)
      → Quiet w (route_custom_id j to_f32 msg json o w)
  route_custom_id-Quiet msg json none w = (refl, inl refl)
  route_custom_id-Quiet msg json (some n) w = elim (Bool-cases (ltb 0 n)) [
    | inl e ↦ rw e (resolve_if_positive-Quiet (some n) json w)
    | inr e ↦ rw e (refl, inl refl)
  ]

  route_custom-Quiet :
      (msg : CastMessage) (o : Option j.Value) (w : World j.Value)
      → Quiet w (route_custom j to_f32 msg o w)
  unfolding route_custom
  route_custom-Quiet msg none w = (refl, inl refl)
  route_custom-Quiet msg (some json) w =
      route_custom_id-Quiet msg json (get_u64 j json "requestId") w

  route_heartbeat-Tracks :
      (msg : CastMessage) (w : World j.Value)
      → Tracks (route_heartbeat j to_f32 msg w).state.media_session_id w.state.media_session_id
  unfolding route_heartbeat
  route_heartbeat-Tracks msg w = inl (ground arith)

  -- Routing replaces the tracked media session by a positive id only.
  pub route-Tracks :
      (msg : CastMessage) (w : World j.Value)
      → Tracks (route j to_f32 msg w).state.media_session_id w.state.media_session_id
  route-Tracks msg w =
      route_cases j to_f32 (λ u. Tracks u.state.media_session_id w.state.media_session_id) msg w
        (route_heartbeat-Tracks msg w) (route_connection-Quiet msg (parsed j to_f32 msg) w).1
        (route_receiver-Quiet (parsed j to_f32 msg) w).1
        (route_media-Quiet (parsed j to_f32 msg) w).1
        (route_custom-Quiet msg (parsed j to_f32 msg) w).1

  unfoldable pub route_all : List CastMessage → World j.Value → World j.Value
  route_all [] w = w
  route_all (msg ∷ msgs) w = route_all msgs (route j to_f32 msg w)

  -- If the tracked media session id is 0 or positive, it is so after any sequence of messages.
  pub route_all-IsSession :
      (msgs : List CastMessage) (w : World j.Value)
      → IsSession w.state.media_session_id
      → IsSession (route_all msgs w).state.media_session_id
  unfolding route_all
  route_all-IsSession [] w h = h
  route_all-IsSession (msg ∷ msgs) w h =
      route_all-IsSession msgs (route j to_f32 msg w)
        (elim (route-Tracks msg w) [ inl e ↦ rw e h | inr p ↦ inr p ])

  -- A PING is answered by one PONG and changes nothing else.
  pub route-ping :
      (msg : CastMessage) (w : World j.Value)
      → is_ping msg ≡ true
      → route j to_f32 msg w ≡ record w { written = pong j ∷ w.written }
  unfolding route route_heartbeat is_ping
  route-ping msg w h = ground arith

  -- Nothing else makes the router send.
  route-silent :
      (msg : CastMessage) (w : World j.Value)
      → is_ping msg ≡ false
      → (route j to_f32 msg w).written ≡ w.written
  unfolding route_heartbeat
  route-silent msg w h =
      route_cases j to_f32 (λ u. u.written ≡ w.written) msg w (rw h)
        (route_connection-Quiet msg (parsed j to_f32 msg) w).0
        (route_receiver-Quiet (parsed j to_f32 msg) w).0
        (route_media-Quiet (parsed j to_f32 msg) w).0
        (route_custom-Quiet msg (parsed j to_f32 msg) w).0

  -- Routing sends one PONG for a PING, and nothing for any other message.
  pub route-written :
      (msg : CastMessage) (w : World j.Value)
      → (route j to_f32 msg w).written ≡ (if is_ping msg then pong j ∷ w.written else w.written)
  route-written msg w = elim (Bool-cases (is_ping msg)) [
    | inl e ↦ rw e (ap (λ (u : World j.Value). u.written) (route-ping msg w e))
    | inr e ↦ rw e (route-silent msg w e)
  ]
