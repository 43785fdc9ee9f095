-- ===== src/Router/Parse/Media.antt =====
-- `parse_media_status`.
pub mod Laws
use oxicast.Common.{
  String, Bool, true, false, Option, none, some, List, [], ◌∷◌, if◌then◌else◌, option_map, and_then,
  unwrap_or, option_filter, str_eq, ℕ,
}
use oxicast.Common.Int.{ℤ, as_i32}
use oxicast.Types.{
  F64, F32, f64_zero, f64_one, f64_positive, StreamType, buffered, live, PlayerState, idle, playing,
  paused, buffering, IdleReason, cancelled, interrupted, finished, error, Volume, MediaInfo,
  MediaStatus,
}
use oxicast.Serde.{SerdeJson}
use oxicast.Router.Parse.Fields.{get_str, get_bool, get_i64, get_f64, get_array}
use oxicast.Router.Parse.Metadata.{parse_metadata}

abbrev pub parse_player_state : String → Option PlayerState
parse_player_state s =
    if str_eq s "IDLE"
    then some idle
    else if str_eq s "PLAYING"
    then some playing
    else if str_eq s "PAUSED"
    then some paused
    else if str_eq s "BUFFERING"
    then some buffering
    else none

abbrev pub parse_idle_reason : String → Option IdleReason
parse_idle_reason s =
    if str_eq s "CANCELLED"
    then some cancelled
    else if str_eq s "INTERRUPTED"
    then some interrupted
    else if str_eq s "FINISHED"
    then some finished
    else if str_eq s "ERROR"
    then some error
    else none

abbrev pub parse_stream_type : String → StreamType
parse_stream_type s =
    if str_eq s "BUFFERED" then buffered else if str_eq s "LIVE" then live else StreamType.none

-- `entries.first()`.
abbrev pub first {ℓ} : {A : Type ℓ} → List A → Option A
first [] = none
first (x ∷ xs) = some x

-- `to_f32` is the cast `as f32` of an `f64`.
module _ (j : SerdeJson) (to_f32 : F64 → F32) where
  open j use {Value, get, as_array, as_bool, as_f64}

  abbrev pub parse_media_info : Value → Option MediaInfo
  parse_media_info m =
      option_map
        (λ content_id. record {
          content_id = content_id;
          content_type = unwrap_or (get_str j m "contentType") "";
          stream_type = parse_stream_type (unwrap_or (get_str j m "streamType") "");
          duration = option_filter f64_positive (get_f64 j m "duration");
          metadata = and_then (get m "metadata") (parse_metadata j);
        })
        (get_str j m "contentId")

  -- The level and the mute flag of an optional volume object.
  abbrev pub parse_volume : Option Value → Volume
  parse_volume volume_obj = record {
    level = to_f32 (unwrap_or (and_then volume_obj (λ v. get_f64 j v "level")) f64_one);
    muted = unwrap_or (and_then volume_obj (λ v. get_bool j v "muted")) false;
  }

  abbrev pub parse_entry : Value → PlayerState → ℤ → MediaStatus
  parse_entry entry player_state id = record {
    media_session_id = as_i32 id;
    player_state = player_state;
    idle_reason = and_then (get_str j entry "idleReason") parse_idle_reason;
    current_time = unwrap_or (get_f64 j entry "currentTime") f64_zero;
    duration =
        option_filter f64_positive (and_then (get entry "media") (λ m. get_f64 j m "duration"));
    volume = parse_volume (get entry "volume");
    media = and_then (get entry "media") parse_media_info;
  }

  unfoldable pub parse_media_status : Value → Option MediaStatus
  parse_media_status json = and_then (get_array j json "status") λ entries.
      and_then (first entries) λ entry.
        and_then (and_then (get_str j entry "playerState") parse_player_state) λ player_state.
          option_map (parse_entry entry player_state) (get_i64 j entry "mediaSessionId")
