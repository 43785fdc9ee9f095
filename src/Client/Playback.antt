-- ===== src/Client/Playback.antt =====
-- The media commands of src/client.rs: `load_media`, `play`, `pause`, `stop_media`, `seek` and
-- `media_status`.
use oxicast.Common.{ℕ, String, Bool, Option, none, some}
use oxicast.Common.Int.{ℤ, pos}
use oxicast.Types.{F64, F32, MediaInfo, MediaStatus}
use oxicast.Error.{ok, ok_or, load_failed, no_media_session}
use oxicast.Message.{CastMessage}
use oxicast.Serde.{SerdeJson}
use oxicast.Channel.Media
use oxicast.Router.Parse.Media.{parse_media_status}
use oxicast.Client.State.{
  Client, Command, ◌>>=◌, ◌>>◌, lift, modify, get_transport_id, get_session_id,
  get_media_session_id, store_session,
}
use oxicast.Client.Request.{Reply, request}
use oxicast.Client.Device.{check_device_error, response_session, check_loaded}

-- `state.media_session_id.store`, if the response names a session.
abbrev pub store_if_named : {V : Type 0} → Option ℤ → Client V → Client V
store_if_named none c = c
store_if_named (some id) c = store_session id c

module _ (j : SerdeJson) (to_f32 : F64 → F32) (show_i64 : ℤ → String) where
  open j use {Value}

  -- What `load_media` and `queue_load` do with the response.
  unfoldable pub finish_load : (missing : String) → Value → Command Value MediaStatus
  finish_load missing json = do
    lift (check_device_error j show_i64 json)
    modify (store_if_named (response_session j show_i64 json))
    status ← lift (ok_or (parse_media_status j to_f32 json) (load_failed missing none))
    lift (check_loaded status)
    lift (ok status)

  unfoldable pub load_media :
      MediaInfo
      → (autoplay : Bool) → (current_time : F64) → (custom_data : Option Value) → Reply Value
      → Command Value MediaStatus
  load_media media autoplay current_time custom_data reply = do
    transport_id ← get_transport_id
    session_id ← get_session_id
    json ←
        request j to_f32
          (λ id. Media.load j id transport_id session_id media autoplay current_time custom_data)
          reply
    finish_load "no media status in response" json

  -- What `play`, `pause` and `seek` share, and `queue_insert`: a request about the session.
  unfoldable pub session_command :
      (ℕ → String → ℤ → CastMessage) → Reply Value → Command Value MediaStatus
  session_command build reply = do
    transport_id ← get_transport_id
    msid ← get_media_session_id
    json ← request j to_f32 (λ id. build id transport_id msid) reply
    lift (check_device_error j show_i64 json)
    lift (ok_or (parse_media_status j to_f32 json) no_media_session)

  unfoldable pub play : Reply Value → Command Value MediaStatus
  play = session_command (Media.play j)

  unfoldable pub pause : Reply Value → Command Value MediaStatus
  pause = session_command (Media.pause j)

  unfoldable pub seek : (position : F64) → Reply Value → Command Value MediaStatus
  seek position =
      session_command (λ id transport_id msid. Media.seek j id transport_id msid position)

  unfoldable pub stop_media : Reply Value → Command Value MediaStatus
  stop_media reply = do
    transport_id ← get_transport_id
    msid ← get_media_session_id
    json ← request j to_f32 (λ id. Media.stop j id transport_id msid) reply
    lift (check_device_error j show_i64 json)
    modify (store_session (pos 0))
    lift (ok_or (parse_media_status j to_f32 json) no_media_session)

  abbrev pub media_status_at : Option String → Reply Value → Command Value (Option MediaStatus)
  media_status_at none reply = lift (ok none)
  media_status_at (some transport_id) reply = do
    json ← request j to_f32 (λ id. Media.get_status j id transport_id) reply
    lift (check_device_error j show_i64 json)
    lift (ok (parse_media_status j to_f32 json))

  -- Without an application there is no status, and nothing is sent.
  unfoldable pub media_status : Reply Value → Command Value (Option MediaStatus)
  media_status reply c = media_status_at c.transport_id reply c
