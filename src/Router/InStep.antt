-- ===== src/Router/InStep.antt =====
-- What the watch channels and the tracked session of src/state.rs hold, as against the events that
-- `route` of src/client/router.rs has raised.
use oxicast.Common.{
  ℕ, Option, none, some, List, [], ◌∷◌, ◌≡◌, inl, inr, arith, ltb, Bool-cases, unwrap_or, str_eq,
  if◌then◌else◌,
}
use oxicast.Common.Int.{ℤ, pos, is_positive}
use oxicast.Types.{F64, F32, MediaStatus, ReceiverStatus}
use oxicast.Event.{CastEvent, receiver_status_changed, media_status_changed}
use oxicast.Ns
use oxicast.Message.{CastMessage}
use oxicast.State.{set_media_session_id}
use oxicast.Serde.{SerdeJson}
use oxicast.Router.Parse.Fields.{get_str, get_u64}
use oxicast.Router.Parse.Media.{parse_media_status}
use oxicast.Router.Parse.Receiver.{parse_receiver_status}
use oxicast.Router.Dispatch.{parsed, route_cases}
use oxicast.Router.Session.{route_all}
use oxicast.Router.Traffic.{Traffic, reads, beats, pass_all}
use oxicast.Router.{
  World, MediaMessageType, status, load_failed, load_cancelled, invalid_request, unknown, route,
  route_heartbeat, route_connection, route_receiver, route_media, route_media_as, route_custom,
  route_custom_id, resolve_if_positive, on_media_status, on_receiver_status,
}

-- The status that the newest event of its kind carries.
abbrev pub latest_media : List CastEvent → Option MediaStatus
latest_media [] = none
latest_media (media_status_changed s ∷ events) = some s
latest_media (e ∷ events) = latest_media events

abbrev pub latest_receiver : List CastEvent → Option ReceiverStatus
latest_receiver [] = none
latest_receiver (receiver_status_changed s ∷ events) = some s
latest_receiver (e ∷ events) = latest_receiver events

-- The id of the newest media status that names a session; 0 is no session.
abbrev pub latest_session : List CastEvent → ℤ
latest_session [] = pos 0
latest_session (media_status_changed s ∷ events) =
    let older = latest_session events in
    if is_positive s.media_session_id then s.media_session_id else older
latest_session (e ∷ events) = latest_session events

-- The state holder holds what the events said last.
pub record IsInStep {V : Type 0} (w : World V) : Type 0 where
  pub media_told : w.state.media ≡ latest_media w.events
  pub receiver_told : w.state.receiver ≡ latest_receiver w.events
  pub session_told : w.state.media_session_id ≡ latest_session w.events

module _ {V : Type 0} where
  resolve_if_positive-IsInStep :
      (o : Option ℕ) (json : V) (w : World V) → IsInStep w → IsInStep (resolve_if_positive o json w)
  unfolding resolve_if_positive
  resolve_if_positive-IsInStep none json w h = h
  resolve_if_positive-IsInStep (some n) json w h = ground arith

  on_media_status-IsInStep :
      (o : Option MediaStatus) (w : World V) → IsInStep w → IsInStep (on_media_status o w)
  unfolding on_media_status set_media_session_id
  on_media_status-IsInStep none w h = h
  on_media_status-IsInStep (some s) w h = ground arith

  on_receiver_status-IsInStep :
      (o : Option ReceiverStatus) (w : World V) → IsInStep w → IsInStep (on_receiver_status o w)
  unfolding on_receiver_status
  on_receiver_status-IsInStep none w h = h
  on_receiver_status-IsInStep (some s) w h = ground arith

module _ (j : SerdeJson) (to_f32 : F64 → F32) where
  route_heartbeat-IsInStep :
      (msg : CastMessage) (w : World j.Value)
      → IsInStep w
      → IsInStep (route_heartbeat j to_f32 msg w)
  unfolding route_heartbeat
  route_heartbeat-IsInStep msg w h = ground arith

  route_connection-IsInStep :
      (msg : CastMessage) (o : Option j.Value) (w : World j.Value)
      → IsInStep w
      → IsInStep (route_connection j to_f32 msg o w)
  unfolding route_connection
  route_connection-IsInStep msg none w h = h
  route_connection-IsInStep msg (some json) w h = ground arith

  route_receiver-IsInStep :
      (o : Option j.Value) (w : World j.Value) → IsInStep w → IsInStep (route_receiver j to_f32 o w)
  unfolding route_receiver
  route_receiver-IsInStep none w h = h
  route_receiver-IsInStep (some json) w h =
      let resolved = resolve_if_positive-IsInStep (get_u64 j json "requestId") json w h in
      elim (Bool-cases (str_eq (unwrap_or (get_str j json "type") "") Ns.msg_receiver_status)) [
        | inl e ↦
            rw e (on_receiver_status-IsInStep (parse_receiver_status j to_f32 json) _ resolved)
        | inr e ↦ rw e resolved
      ]

  route_media_as-IsInStep :
      (kind : MediaMessageType) (json : j.Value) (w : World j.Value)
      → IsInStep w
      → IsInStep (route_media_as j to_f32 kind json w)
  unfolding route_media_as
  route_media_as-IsInStep unknown json w h = h
  route_media_as-IsInStep status json w h =
      on_media_status-IsInStep (parse_media_status j to_f32 json) _
        (resolve_if_positive-IsInStep (get_u64 j json "requestId") json w h)
  route_media_as-IsInStep load_failed json w h =
      resolve_if_positive-IsInStep (get_u64 j json "requestId") json w h
  route_media_as-IsInStep load_cancelled json w h =
      resolve_if_positive-IsInStep (get_u64 j json "requestId") json w h
  route_media_as-IsInStep invalid_request json w h =
      resolve_if_positive-IsInStep (get_u64 j json "requestId") json w h

  route_media-IsInStep :
      (o : Option j.Value) (w : World j.Value) → IsInStep w → IsInStep (route_media j to_f32 o w)
  unfolding route_media
  route_media-IsInStep none w h = h
  route_media-IsInStep (some json) w h = route_media_as-IsInStep _ json w h

  route_custom_id-IsInStep :
      (msg : CastMessage) (json : j.Value) (o : Option ℕ) (w : World j.Value)
      → IsInStep w
      → IsInStep (route_custom_id j to_f32 msg json o w)
  route_custom_id-IsInStep msg json none w h = ground arith
  route_custom_id-IsInStep msg json (some n) w h = elim (Bool-cases (ltb 0 n)) [
    | inl e ↦ rw e (resolve_if_positive-IsInStep (some n) json w h)
    | inr e ↦ rw e (ground arith)
  ]

  route_custom-IsInStep :
      (msg : CastMessage) (o : Option j.Value) (w : World j.Value)
      → IsInStep w
      → IsInStep (route_custom j to_f32 msg o w)
  unfolding route_custom
  route_custom-IsInStep msg none w h = ground arith
  route_custom-IsInStep msg (some json) w h =
      route_custom_id-IsInStep msg json (get_u64 j json "requestId") w h

  route-IsInStep :
      (msg : CastMessage) (w : World j.Value) → IsInStep w → IsInStep (route j to_f32 msg w)
  route-IsInStep msg w h =
      let payload = parsed j to_f32 msg in
      route_cases j to_f32 IsInStep msg w (route_heartbeat-IsInStep msg w h)
        (route_connection-IsInStep msg payload w h) (route_receiver-IsInStep payload w h)
        (route_media-IsInStep payload w h) (route_custom-IsInStep msg payload w h)

  -- After any sequence of messages the watch channels hold the statuses that the newest events of
  -- their kind carry, and the tracked session is that of the newest media status that names one: if
  -- this was so before.
  pub route_all-IsInStep :
      (msgs : List CastMessage) (w : World j.Value)
      → IsInStep w
      → IsInStep (route_all j to_f32 msgs w)
  unfolding route_all
  route_all-IsInStep [] w h = h
  route_all-IsInStep (msg ∷ msgs) w h =
      route_all-IsInStep msgs (route j to_f32 msg w) (route-IsInStep msg w h)

  -- A PING of the heartbeat task changes nothing of this.
  pub pass_all-IsInStep :
      (traffic : List Traffic) (w : World j.Value)
      → IsInStep w
      → IsInStep (pass_all j to_f32 traffic w)
  unfolding pass_all
  pass_all-IsInStep [] w h = h
  pass_all-IsInStep (reads m ∷ more) w h =
      pass_all-IsInStep more (route j to_f32 m w) (route-IsInStep m w h)
  pass_all-IsInStep (beats ∷ more) w h = pass_all-IsInStep more _ record {
    media_told = h.media_told;
    receiver_told = h.receiver_told;
    session_told = h.session_told;
  }
