-- ===== src/Types/Enums.antt =====
-- The enumerations of src/types.rs.
use oxicast.Common.{String}

pub data StreamType : Type 0 where
  none buffered live : StreamType

pub data PlayerState : Type 0 where
  idle playing paused buffering : PlayerState

pub data IdleReason : Type 0 where
  cancelled interrupted finished error : IdleReason

pub data RepeatMode : Type 0 where
  repeat_off repeat_all repeat_single repeat_all_and_shuffle : RepeatMode

pub data CastApp : Type 0 where
  default_media_receiver backdrop you_tube : CastApp
  custom : String → CastApp
