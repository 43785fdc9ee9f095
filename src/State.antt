-- ===== src/State.antt =====
-- src/state.rs: what the watch channels were last given, and the tracked media session.
use oxicast.Common.{Option, none}
use oxicast.Common.Int.{ℤ, pos}
use oxicast.Types.{MediaStatus, ReceiverStatus}
use oxicast.Event.{ConnectionState}

pub record StateHolder : Type 0 where
  pub media : Option MediaStatus
  pub receiver : Option ReceiverStatus
  pub connection : ConnectionState
  pub media_session_id : ℤ

unfoldable pub new_state : StateHolder
new_state = record {
  media = none;
  receiver = none;
  connection = ConnectionState.connected;
  media_session_id = pos 0;
}

unfoldable pub set_media_session_id : ℤ → StateHolder → StateHolder
set_media_session_id id s = record s { media_session_id = id }
