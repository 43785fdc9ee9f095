-- ===== src/Channel/Media.antt =====
-- The requests of src/channel/media.rs.
use oxicast.Common.{ℕ, String, Bool, Option, List, [], ◌∷◌, map, unwrap_or}
use oxicast.Common.Int.{ℤ}
use oxicast.Types.{
  F64, MediaInfo, QueueItem, RepeatMode, repeat_off, repeat_all, repeat_single,
  repeat_all_and_shuffle,
}
use oxicast.Ns
use oxicast.Message.{CastMessage, build_message}
use oxicast.Serde.{SerdeJson}
use oxicast.Channel.Metadata.{opt_entry, media_object, serialize_queue_item}

abbrev pub repeat_name : RepeatMode → String
repeat_name repeat_off = "REPEAT_OFF"
repeat_name repeat_all = "REPEAT_ALL"
repeat_name repeat_single = "REPEAT_SINGLE"
repeat_name repeat_all_and_shuffle = "REPEAT_ALL_AND_SHUFFLE"

module _ (j : SerdeJson) where
  open j use {Value, object, array, string, bool, u64, i64, f64}

  abbrev pub media_message : (transport_id : String) → Value → CastMessage
  media_message transport_id payload =
      build_message Ns.ns_media Ns.sender_id transport_id (j.to_string payload)

  -- The payload of a request about the current session, with what the request adds.
  abbrev pub session_payload : String → ℕ → ℤ → List (String × Value) → Value
  session_payload kind request_id media_session_id more = object (
      ("type", string kind)
      ∷ ("requestId", u64 request_id)
      ∷ ("mediaSessionId", i64 media_session_id)
      ∷ more)

  abbrev pub load_payload :
      ℕ → (session_id : String) → MediaInfo → (autoplay : Bool) → F64 → Option Value → Value
  load_payload request_id session_id media autoplay current_time custom_data = object (
      ("type", string Ns.msg_load)
      ∷ ("requestId", u64 request_id)
      ∷ ("sessionId", string session_id)
      ∷ ("media", media_object j media)
      ∷ ("autoplay", bool autoplay)
      ∷ ("currentTime", f64 current_time)
      ∷ ("customData", unwrap_or custom_data (object []))
      ∷ [])

  unfoldable pub load :
      ℕ
      → (transport_id session_id : String) → MediaInfo
      → (autoplay : Bool) → F64
      → Option Value
      → CastMessage
  load request_id transport_id session_id media autoplay current_time custom_data =
      media_message transport_id
        (load_payload request_id session_id media autoplay current_time custom_data)

  unfoldable pub play : ℕ → (transport_id : String) → ℤ → CastMessage
  play request_id transport_id media_session_id =
      media_message transport_id (session_payload Ns.msg_play request_id media_session_id [])

  unfoldable pub pause : ℕ → (transport_id : String) → ℤ → CastMessage
  pause request_id transport_id media_session_id =
      media_message transport_id (session_payload Ns.msg_pause request_id media_session_id [])

  unfoldable pub stop : ℕ → (transport_id : String) → ℤ → CastMessage
  stop request_id transport_id media_session_id = media_message transport_id (
      session_payload Ns.msg_media_stop request_id media_session_id
        (("customData", object []) ∷ []))

  unfoldable pub seek : ℕ → (transport_id : String) → ℤ → F64 → CastMessage
  seek request_id transport_id media_session_id position =
      media_message transport_id (
        session_payload Ns.msg_seek request_id media_session_id
          (("currentTime", f64 position) ∷ []))

  unfoldable pub get_status : ℕ → (transport_id : String) → CastMessage
  get_status request_id transport_id =
      media_message transport_id
        (object (("type", string Ns.msg_get_status) ∷ ("requestId", u64 request_id) ∷ []))

  unfoldable pub queue_load :
      ℕ
      → (transport_id session_id : String) → List QueueItem
      → (start_index : ℕ) → RepeatMode
      → CastMessage
  queue_load request_id transport_id session_id items start_index repeat_mode =
      media_message transport_id (
        object (
          ("type", string Ns.msg_queue_load)
          ∷ ("requestId", u64 request_id)
          ∷ ("sessionId", string session_id)
          ∷ ("items", array (map (serialize_queue_item j) items))
          ∷ ("startIndex", u64 start_index)
          ∷ ("repeatMode", string (repeat_name repeat_mode))
          ∷ []))

  unfoldable pub queue_insert :
      ℕ → (transport_id : String) → ℤ → List QueueItem → (insert_before : Option ℕ) → CastMessage
  queue_insert request_id transport_id media_session_id items insert_before =
      media_message transport_id (
        session_payload Ns.msg_queue_insert request_id media_session_id (
          ("items", array (map (serialize_queue_item j) items))
          ∷ opt_entry j "insertBefore" u64 insert_before))
