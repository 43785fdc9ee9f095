-- ===== src/Router.antt =====
-- src/client/router.rs: `route`, which hands an inbound message to the right handler. A `World` is
-- what the handlers change: the request tracker, the state holder, and logs, newest first, of the
-- events handed to `event_tx.try_send` and of the messages handed to `write_tx.send`. Whether a full
-- or closed channel keeps one is tokio's, and the router ignores it.
pub mod Parse
pub mod Dispatch
pub mod Correlation
pub mod Delivery
pub mod Answered
pub mod Events
pub mod InStep
pub mod Session
pub mod Traffic
use oxicast.Common.{
  ℕ, String, Bool, true, false, Option, none, some, List, [], ◌∷◌, ltb, if◌then◌else◌, and_then,
  unwrap_or, str_eq, ◌==◌, ◌&&◌,
}
use oxicast.Common.Int.{ℤ, as_u32, is_positive}
use oxicast.Types.{
  F64, F32, PlayerState, idle, playing, paused, buffering, IdleReason, MediaStatus, ReceiverStatus,
}
use oxicast.Event.{
  CastEvent, receiver_status_changed, media_status_changed, media_session_ended, raw_message,
}
use oxicast.Ns
use oxicast.Message.{CastMessage}
use oxicast.State.{StateHolder, set_media_session_id}
use oxicast.Tracker.{Tracker, resolve}
use oxicast.Serde.{SerdeJson}
use oxicast.Heartbeat.{is_ping, pong}
use Parse.Fields.{get_str, get_u64}
use Parse.Media.{parse_media_status}
use Parse.Receiver.{parse_receiver_status}

pub data MediaMessageType : Type 0 where
  status load_failed load_cancelled invalid_request unknown : MediaMessageType

unfoldable pub classify_media_message : String → MediaMessageType
classify_media_message msg_type =
    if str_eq msg_type Ns.msg_media_status
    then status
    else if str_eq msg_type Ns.msg_load_failed
    then load_failed
    else if str_eq msg_type Ns.msg_load_cancelled
    then load_cancelled
    else if str_eq msg_type Ns.msg_invalid_request
    then invalid_request
    else unknown

pub record World (V : Type 0) : Type 0 where
  pub tracker : Tracker V
  pub state : StateHolder
  pub events : List CastEvent
  pub written : List CastMessage

abbrev pub is_idle : PlayerState → Bool
is_idle idle = true
is_idle _ = false

module _ {V : Type 0} where
  abbrev pub emit : CastEvent → World V → World V
  emit e w = record w { events = e ∷ w.events }

  abbrev pub write : CastMessage → World V → World V
  write m w = record w { written = m ∷ w.written }

  -- `request_tracker.resolve(request_id as u32, json)`, for a positive id.
  unfoldable pub resolve_if_positive : Option ℕ → V → World V → World V
  resolve_if_positive none json w = w
  resolve_if_positive (some request_id) json w =
      if ltb 0 request_id
      then record w { tracker = (resolve (as_u32 request_id) json w.tracker).1 }
      else w

  -- `state.set_media_session_id`, if the status names a real session.
  abbrev pub track_session : MediaStatus → World V → World V
  track_session s w =
      if is_positive s.media_session_id
      then record w { state = set_media_session_id s.media_session_id w.state }
      else w

  abbrev pub end_session_for : Option IdleReason → ℤ → World V → World V
  end_session_for none id w = w
  end_session_for (some reason) id w = emit (media_session_ended id reason) w

  abbrev pub end_session : MediaStatus → World V → World V
  end_session s w =
      if is_idle s.player_state && is_positive s.media_session_id
      then end_session_for s.idle_reason s.media_session_id w
      else w

  abbrev pub publish_media : MediaStatus → World V → World V
  publish_media s w =
      emit (media_status_changed s) (record w { state = record (w.state) { media = some s } })

  unfoldable pub on_media_status : Option MediaStatus → World V → World V
  unfolding set_media_session_id
  on_media_status none w = w
  on_media_status (some s) w = publish_media s (end_session s (track_session s w))

  unfoldable pub on_receiver_status : Option ReceiverStatus → World V → World V
  on_receiver_status none w = w
  on_receiver_status (some s) w =
      emit (receiver_status_changed s) (record w { state = record (w.state) { receiver = some s } })

abbrev pub payload_str : CastMessage → String
payload_str msg = unwrap_or msg.payload_utf8 ""

abbrev pub raw_event : String → CastMessage → CastEvent
raw_event namespace msg = raw_message namespace msg.source_id msg.destination_id (payload_str msg)

abbrev pub is_close : Option String → Bool
is_close none = false
is_close (some t) = str_eq t Ns.msg_close

module _ (j : SerdeJson) (to_f32 : F64 → F32) where
  open j use {Value, from_str}

  unfoldable pub route_heartbeat : CastMessage → World Value → World Value
  route_heartbeat msg w = if is_ping msg then write (pong j) w else w

  -- This handler and those below get the parsed payload, if it is JSON.
  unfoldable pub route_connection : CastMessage → Option Value → World Value → World Value
  route_connection msg none w = w
  route_connection msg (some json) w =
      if is_close (get_str j json "type") then emit (raw_event Ns.ns_connection msg) w else w

  unfoldable pub route_receiver : Option Value → World Value → World Value
  route_receiver none w = w
  route_receiver (some json) w =
      let resolved = resolve_if_positive (get_u64 j json "requestId") json w in
      if str_eq (unwrap_or (get_str j json "type") "") Ns.msg_receiver_status
      then on_receiver_status (parse_receiver_status j to_f32 json) resolved
      else resolved

  unfoldable pub route_media_as : MediaMessageType → Value → World Value → World Value
  route_media_as unknown json w = w
  route_media_as status json w =
      on_media_status (parse_media_status j to_f32 json)
        (resolve_if_positive (get_u64 j json "requestId") json w)
  route_media_as load_failed json w = resolve_if_positive (get_u64 j json "requestId") json w
  route_media_as load_cancelled json w = resolve_if_positive (get_u64 j json "requestId") json w
  route_media_as invalid_request json w = resolve_if_positive (get_u64 j json "requestId") json w

  unfoldable pub route_media : Option Value → World Value → World Value
  route_media none w = w
  route_media (some json) w =
      route_media_as (classify_media_message (unwrap_or (get_str j json "type") "")) json w

  abbrev pub raise_raw : CastMessage → World Value → World Value
  raise_raw msg w = emit (raw_event msg.namespace msg) w

  -- A positive id is handed to the tracker, and the message is then no raw event.
  abbrev pub route_custom_id : CastMessage → Value → Option ℕ → World Value → World Value
  route_custom_id msg json none w = raise_raw msg w
  route_custom_id msg json (some request_id) w =
      if ltb 0 request_id then resolve_if_positive (some request_id) json w else raise_raw msg w

  unfoldable pub route_custom : CastMessage → Option Value → World Value → World Value
  route_custom msg none w = raise_raw msg w
  route_custom msg (some json) w = route_custom_id msg json (get_u64 j json "requestId") w

  unfoldable pub route : CastMessage → World Value → World Value
  route msg w =
      if str_eq msg.namespace Ns.ns_heartbeat
      then route_heartbeat msg w
      else if str_eq msg.namespace Ns.ns_connection
      then route_connection msg (from_str (payload_str msg)) w
      else if str_eq msg.namespace Ns.ns_receiver
      then route_receiver (from_str (payload_str msg)) w
      else if str_eq msg.namespace Ns.ns_media
      then route_media (from_str (payload_str msg)) w
      else route_custom msg (from_str (payload_str msg)) w
