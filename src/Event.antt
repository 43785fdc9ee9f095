-- ===== src/Event.antt =====
-- src/event.rs and the connection state of src/state.rs.
use oxicast.Common.{ℕ, String, Bool, true, false, Option, none, some}
use oxicast.Common.Int.{ℤ}
use oxicast.Types.{IdleReason, MediaStatus, ReceiverStatus}

pub data CastEvent : Type 0 where
  connected : CastEvent
  disconnected : Option String → CastEvent
  reconnecting : (attempt : ℕ) → CastEvent
  reconnected : CastEvent
  heartbeat_timeout : CastEvent
  receiver_status_changed : ReceiverStatus → CastEvent
  media_status_changed : MediaStatus → CastEvent
  media_session_ended : (media_session_id : ℤ) (idle_reason : IdleReason) → CastEvent
  raw_message : (namespace source destination payload : String) → CastEvent

unfoldable pub as_media_status : CastEvent → Option MediaStatus
as_media_status (media_status_changed s) = some s
as_media_status _ = none

unfoldable pub as_receiver_status : CastEvent → Option ReceiverStatus
as_receiver_status (receiver_status_changed s) = some s
as_receiver_status _ = none

unfoldable pub is_disconnected : CastEvent → Bool
is_disconnected (disconnected reason) = true
is_disconnected _ = false

unfoldable pub is_media_status : CastEvent → Bool
is_media_status (media_status_changed s) = true
is_media_status _ = false

pub data ConnectionState : Type 0 where
  connected disconnected : ConnectionState
  reconnecting : (attempt : ℕ) → ConnectionState
