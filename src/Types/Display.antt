-- ===== src/Types/Display.antt =====
-- The `Display` texts of src/types.rs.
use Prim.Native.String.{◌++◌ as push_str}
use oxicast.Common.{String}
use oxicast.Types.{
  StreamType, PlayerState, IdleReason, CastApp, idle, playing, paused, buffering, cancelled,
  interrupted, finished, error, buffered, live, default_media_receiver, backdrop, you_tube, custom,
}

unfoldable pub player_state : PlayerState → String
player_state idle = "idle"
player_state playing = "playing"
player_state paused = "paused"
player_state buffering = "buffering"

unfoldable pub idle_reason : IdleReason → String
idle_reason cancelled = "cancelled"
idle_reason interrupted = "interrupted"
idle_reason finished = "finished"
idle_reason error = "error"

unfoldable pub stream_type : StreamType → String
stream_type StreamType.none = "none"
stream_type buffered = "buffered"
stream_type live = "live"

unfoldable pub cast_app : CastApp → String
cast_app default_media_receiver = "Default Media Receiver"
cast_app backdrop = "Backdrop"
cast_app you_tube = "YouTube"
cast_app (custom id) = push_str "Custom(" (push_str id ")")
