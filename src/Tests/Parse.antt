-- ===== src/Tests/Parse.antt =====
-- Runs of the parsers.
use oxicast.Common.{◌≡◌, refl, arith, false, none, some, List, [], ◌∷◌, and_then}
use oxicast.Common.Int.{ℤ, pos, as_i32}
use oxicast.Types.{MediaMetadata, tv_show, MediaInfo, MediaStatus, buffered, playing}
use oxicast.Channel.Metadata.{media_object, serialize_metadata}
use oxicast.Router.Parse.Fields.{get_str, get_i64, get_array}
use oxicast.Router.Parse.Metadata.{parse_metadata}
use oxicast.Router.Parse.Metadata.Roundtrip.{parse_metadata-serialize_metadata}
use oxicast.Router.Parse.Media.{parse_media_info, parse_media_status, parse_player_state, first}
use oxicast.Router.Parse.Media.Laws.{
  IsSound, parse_media_info-media_object, parse_media_status-IsSound,
}
use oxicast.Tests.Base.{json, json-IsLawful, to_f32, playing_status}

-- An episode with one image, and a medium of it that lasts one second.
abbrev episode : MediaMetadata
episode =
    tv_show (some "Series") (some "Pilot") (some 1) none
      (record { url = "http://x/1.png"; width = some 640; height = none } ∷ [])

abbrev medium : MediaInfo
medium = record {
  content_id = "http://x/1.mp4";
  content_type = "video/mp4";
  stream_type = buffered;
  duration = some 0x3ff0000000000000;
  metadata = some episode;
}

abbrev status : MediaStatus
status = record {
  media_session_id = pos 4;
  player_state = playing;
  idle_reason = none;
  current_time = 0;
  duration = none;
  volume = record { level = 0; muted = false };
  media = none;
}

parse_metadata-serialize_metadata_example :
    parse_metadata json (serialize_metadata json episode) ≡ some episode
parse_metadata-serialize_metadata_example =
    parse_metadata-serialize_metadata json json-IsLawful episode
      (omega arith, tt, (record { width_fits = omega arith; height_fits = tt }, tt))

parse_media_info-media_object_example :
    parse_media_info json to_f32 (media_object json medium) ≡ some medium
parse_media_info-media_object_example =
    parse_media_info-media_object json to_f32 json-IsLawful medium record {
      duration_kept = (refl, refl);
      metadata_fits =
          (omega arith, tt, (record { width_fits = omega arith; height_fits = tt }, tt));
    }

parse_media_status-IsSound_example :
    IsSound status
    × ((entries : List json.Value) × (entry : json.Value) × (id : ℤ) × (get_array json
            playing_status "status"
          ≡ some entries)
        × (first entries ≡ some entry)
        × (and_then (get_str json entry "playerState") parse_player_state ≡ some playing)
        × (get_i64 json entry "mediaSessionId" ≡ some id)
        × (as_i32 id ≡ pos 4))
unfolding parse_media_status
parse_media_status-IsSound_example =
    parse_media_status-IsSound json to_f32 playing_status status refl
