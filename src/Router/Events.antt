-- ===== src/Router/Events.antt =====
-- The events that `route` raises, and the messages that it sends.
use oxicast.Common.{
  ℕ, ◌≤◌, true, false, Option, none, some, List, [], ◌∷◌, ◌++◌, ◌≡◌, ◌≢◌, refl, ◌⊎◌, inl, inr,
  arith, ltb, Bool-cases, Option-cases, unwrap_or, ap, subst, str_eq, All, length, ◌&&◌,
}
use oxicast.Common.Int.{is_positive}
use oxicast.Types.{F64, F32, idle, IdleReason, MediaStatus, ReceiverStatus}
use oxicast.Event.{
  CastEvent, receiver_status_changed, media_status_changed, media_session_ended, raw_message,
}
use oxicast.Ns
use oxicast.Message.{CastMessage}
use oxicast.Serde.{SerdeJson}
use oxicast.Router.Parse.Fields.{get_str, get_u64}
use oxicast.Router.Parse.Media.{parse_media_status}
use oxicast.Router.Parse.Receiver.{parse_receiver_status}
use oxicast.Router.Dispatch.{parsed, route_cases}
use oxicast.Router.{
  World, MediaMessageType, status, load_failed, load_cancelled, invalid_request, unknown, route,
  route_heartbeat, route_connection, route_receiver, route_media, route_media_as, route_custom,
  route_custom_id, raw_event, is_close, resolve_if_positive, on_media_status, on_receiver_status,
  is_idle, end_session, track_session,
}

-- The events about what the device says, as against those about the connection itself.
abbrev pub IsDeviceEvent : CastEvent → Type 0
IsDeviceEvent (receiver_status_changed s) = Unit
IsDeviceEvent (media_status_changed s) = Unit
IsDeviceEvent (media_session_ended id reason) = Unit
IsDeviceEvent (raw_message n s d p) = Unit
IsDeviceEvent _ = ⊥

-- The newer log adds at most two events to the older, and they are the device's.
abbrev pub Adds : List CastEvent → List CastEvent → Type 0
Adds new old = (es : List CastEvent) × (new ≡ es ++ old) × (length es ≤ 2) × All IsDeviceEvent es

module _ {V : Type 0} where
  resolve_if_positive-events :
      (o : Option ℕ) (json : V) (w : World V) → (resolve_if_positive o json w).events ≡ w.events
  unfolding resolve_if_positive
  resolve_if_positive-events none json w = refl
  resolve_if_positive-events (some n) json w = ground arith

  -- A parsed media status is announced last. The end of a session is announced just before it,
  -- exactly for a status that is idle, has a positive session id and gives a reason.
  pub on_media_status-events :
      (s : MediaStatus) (w : World V)
      → let new = (on_media_status (some s) w).events in
        ((reason : IdleReason)
          → s.player_state ≡ idle
          → is_positive s.media_session_id ≡ true
          → s.idle_reason ≡ some reason
          → new ≡ media_status_changed s ∷ media_session_ended s.media_session_id reason ∷ w.events)
        × (((s.player_state ≢ idle)
              ⊎ (is_positive s.media_session_id ≡ false)
              ⊎ (s.idle_reason ≡ none))
            → new ≡ media_status_changed s ∷ w.events)
  unfolding on_media_status
  on_media_status-events s w = (
    (λ reason p q r. ground arith),
    elim [ inl p ↦ ground arith | inr (inl q) ↦ ground arith | inr (inr r) ↦ ground arith ],
  )

  end_session-cases :
      (s : MediaStatus) (w : World V)
      → let new = (end_session s (track_session s w)).events in
        (new ≡ w.events)
        ⊎ ((reason : IdleReason) × (new ≡ media_session_ended s.media_session_id reason ∷ w.events))
  end_session-cases s w =
      elim (Bool-cases (is_idle s.player_state && is_positive s.media_session_id)) [
        | inl e ↦ elim (Option-cases s.idle_reason) [
          | inl o ↦ inl (ground arith)
          | inr (reason, o) ↦ inr (reason, ground arith)
        ]
        | inr e ↦ inl (ground arith)
      ]

  on_media_status-Adds :
      (o : Option MediaStatus) (w : World V) → Adds (on_media_status o w).events w.events
  unfolding on_media_status
  on_media_status-Adds none w = ([], refl, omega arith, tt)
  on_media_status-Adds (some s) w = elim (end_session-cases s w) [
    | inl e ↦
        (media_status_changed s ∷ [], ap (◌∷◌ (media_status_changed s)) e, omega arith, (tt, tt))
    | inr (reason, e) ↦ (
      media_status_changed s ∷ media_session_ended s.media_session_id reason ∷ [],
      ap (◌∷◌ (media_status_changed s)) e,
      omega arith,
      (tt, (tt, tt)),
    )
  ]

  on_receiver_status-Adds :
      (o : Option ReceiverStatus) (w : World V) → Adds (on_receiver_status o w).events w.events
  unfolding on_receiver_status
  on_receiver_status-Adds none w = ([], refl, omega arith, tt)
  on_receiver_status-Adds (some s) w = (receiver_status_changed s ∷ [], refl, omega arith, (tt, tt))

module _ (j : SerdeJson) (to_f32 : F64 → F32) where
  route_connection-Adds :
      (msg : CastMessage) (o : Option j.Value) (w : World j.Value)
      → Adds (route_connection j to_f32 msg o w).events w.events
  unfolding route_connection
  route_connection-Adds msg none w = ([], refl, omega arith, tt)
  route_connection-Adds msg (some json) w = elim (Bool-cases (is_close (get_str j json "type"))) [
    | inl e ↦ (raw_event Ns.ns_connection msg ∷ [], rw e, omega arith, (tt, tt))
    | inr e ↦ ([], rw e, omega arith, tt)
  ]

  route_receiver-Adds :
      (o : Option j.Value) (w : World j.Value) → Adds (route_receiver j to_f32 o w).events w.events
  unfolding route_receiver
  route_receiver-Adds none w = ([], refl, omega arith, tt)
  route_receiver-Adds (some json) w =
      let resolved = resolve_if_positive (get_u64 j json "requestId") json w in
      let same = resolve_if_positive-events (get_u64 j json "requestId") json w in
      elim (Bool-cases (str_eq (unwrap_or (get_str j json "type") "") Ns.msg_receiver_status)) [
        | inl e ↦ rw e (
            subst (Adds (on_receiver_status (parse_receiver_status j to_f32 json) resolved).events)
              same (on_receiver_status-Adds (parse_receiver_status j to_f32 json) resolved))
        | inr e ↦ ([], rw e same, omega arith, tt)
      ]

  route_media_as-Adds :
      (kind : MediaMessageType) (json : j.Value) (w : World j.Value)
      → Adds (route_media_as j to_f32 kind json w).events w.events
  unfolding route_media_as
  route_media_as-Adds unknown json w = ([], refl, omega arith, tt)
  route_media_as-Adds status json w =
      let resolved = resolve_if_positive (get_u64 j json "requestId") json w in
      subst (Adds (on_media_status (parse_media_status j to_f32 json) resolved).events)
        (resolve_if_positive-events (get_u64 j json "requestId") json w)
        (on_media_status-Adds (parse_media_status j to_f32 json) resolved)
  route_media_as-Adds load_failed json w =
      ([], resolve_if_positive-events _ json w, omega arith, tt)
  route_media_as-Adds load_cancelled json w =
      ([], resolve_if_positive-events _ json w, omega arith, tt)
  route_media_as-Adds invalid_request json w =
      ([], resolve_if_positive-events _ json w, omega arith, tt)

  route_media-Adds :
      (o : Option j.Value) (w : World j.Value) → Adds (route_media j to_f32 o w).events w.events
  unfolding route_media
  route_media-Adds none w = ([], refl, omega arith, tt)
  route_media-Adds (some json) w = route_media_as-Adds _ json w

  route_custom_id-Adds :
      (msg : CastMessage) (json : j.Value) (o : Option ℕ) (w : World j.Value)
      → Adds (route_custom_id j to_f32 msg json o w).events w.events
  route_custom_id-Adds msg json none w =
      (raw_event msg.namespace msg ∷ [], refl, omega arith, (tt, tt))
  route_custom_id-Adds msg json (some n) w = elim (Bool-cases (ltb 0 n)) [
    | inl e ↦ ([], rw e (resolve_if_positive-events (some n) json w), omega arith, tt)
    | inr e ↦ (raw_event msg.namespace msg ∷ [], rw e, omega arith, (tt, tt))
  ]

  route_custom-Adds :
      (msg : CastMessage) (o : Option j.Value) (w : World j.Value)
      → Adds (route_custom j to_f32 msg o w).events w.events
  unfolding route_custom
  route_custom-Adds msg none w = (raw_event msg.namespace msg ∷ [], refl, omega arith, (tt, tt))
  route_custom-Adds msg (some json) w = route_custom_id-Adds msg json (get_u64 j json "requestId") w

  -- Routing a message adds at most two events, and none about the connection: a CLOSE from the
  -- device does not look like a disconnection.
  pub route-Adds :
      (msg : CastMessage) (w : World j.Value) → Adds (route j to_f32 msg w).events w.events
  unfolding route_heartbeat
  route-Adds msg w =
      route_cases j to_f32 (λ u. Adds u.events w.events) msg w ([], ground arith, omega arith, tt)
        (route_connection-Adds msg (parsed j to_f32 msg) w)
        (route_receiver-Adds (parsed j to_f32 msg) w) (route_media-Adds (parsed j to_f32 msg) w)
        (route_custom-Adds msg (parsed j to_f32 msg) w)
