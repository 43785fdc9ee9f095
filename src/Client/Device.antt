-- ===== src/Client/Device.antt =====
-- `check_device_error` of src/client.rs, and the parts of a response that several commands read.
use Prim.Native.String.{◌++◌ as concat}
use oxicast.Common.{
  String, Option, none, some, if◌then◌else◌, str_eq, option_map, and_then, unwrap_or,
}
use oxicast.Common.Int.{ℤ, as_i32, as_u32}
use oxicast.Types.{MediaStatus, PlayerState, idle, MediaInfo}
use oxicast.Error.{Result, ok, err, load_failed, invalid_request, launch_failed}
use oxicast.Serde.{SerdeJson}
use oxicast.Router.Parse.Fields.{get_str, get_u64, get_i64, get_array}
use oxicast.Router.Parse.Media.{first}

-- `show_i64` is the text that `format!` gives for an `i64`.
module _ (j : SerdeJson) (show_i64 : ℤ → String) where
  open j use {Value}

  abbrev pub reason_of : Value → String
  reason_of json = unwrap_or (get_str j json "reason") "unknown"

  abbrev pub device_error : String → Value → Result (Unit {0})
  device_error kind json =
      if str_eq kind "LOAD_FAILED"
      then err (
          load_failed "Chromecast rejected the media" (
            option_map (λ c. concat "error code " (show_i64 c))
              (get_i64 j json "detailedErrorCode")))
      else if str_eq kind "LOAD_CANCELLED"
      then err (load_failed "load was cancelled" none)
      else if str_eq kind "INVALID_REQUEST"
      then err
          (invalid_request (as_u32 (unwrap_or (get_u64 j json "requestId") 0)) (reason_of json))
      else if str_eq kind "LAUNCH_ERROR"
      then err (launch_failed (reason_of json))
      else ok tt

  abbrev pub device_error_of : Option String → Value → Result (Unit {0})
  device_error_of none json = ok tt
  device_error_of (some kind) json = device_error kind json

  unfoldable pub check_device_error : Value → Result (Unit {0})
  check_device_error json = device_error_of (get_str j json "type") json

  -- The media session id of the first status entry.
  abbrev pub response_session : Value → Option ℤ
  response_session json = option_map as_i32 (
      and_then (and_then (get_array j json "status") first)
        λ entry. get_i64 j entry "mediaSessionId")

abbrev pub has_no_media : PlayerState → Option MediaInfo → Result (Unit {0})
has_no_media idle none =
    err (load_failed "media not accepted by device (received IDLE with no media)" none)
has_no_media _ _ = ok tt

-- The device may answer a load by the IDLE status that clears the previous state.
unfoldable pub check_loaded : MediaStatus → Result (Unit {0})
check_loaded s = has_no_media s.player_state s.media
