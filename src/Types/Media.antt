-- ===== src/Types/Media.antt =====
-- The constructors of `MediaInfo` and `Volume` in src/types.rs, and the methods that set a field.
use oxicast.Common.{String, true, false, Option, none, some, []}
use oxicast.Types.{F64, F32, f32_clamp_unit, f32_zero, StreamType, MediaInfo, MediaMetadata, Volume}

abbrev pub new : (content_id content_type : String) → MediaInfo
new content_id content_type = record {
  content_id = content_id;
  content_type = content_type;
  stream_type = StreamType.buffered;
  duration = none;
  metadata = none;
}

abbrev pub stream_type : StreamType → MediaInfo → MediaInfo
stream_type t m = record m { stream_type = t }

abbrev pub duration : F64 → MediaInfo → MediaInfo
duration d m = record m { duration = some d }

abbrev pub maybe_duration : Option F64 → MediaInfo → MediaInfo
maybe_duration (some d) m = duration d m
maybe_duration none m = m

abbrev pub metadata : MediaMetadata → MediaInfo → MediaInfo
metadata d m = record m { metadata = some d }

abbrev pub maybe_metadata : Option MediaMetadata → MediaInfo → MediaInfo
maybe_metadata (some d) m = metadata d m
maybe_metadata none m = m

abbrev pub movie : (content_id content_type title : String) → MediaInfo
movie content_id content_type title = record {
  content_id = content_id;
  content_type = content_type;
  stream_type = StreamType.buffered;
  duration = none;
  metadata = some (MediaMetadata.movie (some title) none none []);
}

abbrev pub live : (content_id content_type : String) → MediaInfo
live content_id content_type = record {
  content_id = content_id;
  content_type = content_type;
  stream_type = StreamType.live;
  duration = none;
  metadata = none;
}

-- `Volume::new` and `Volume::muted`.
abbrev pub volume : F32 → Volume
volume level = record { level = f32_clamp_unit level; muted = false }

abbrev pub muted_volume : Volume
muted_volume = record { level = f32_zero; muted = true }
