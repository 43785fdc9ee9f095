-- ===== src/Channel/Metadata.antt =====
-- The serialisation of metadata and of media objects in src/channel/media.rs, as values.
use oxicast.Common.{String, Option, none, some, List, [], ◌∷◌, ◌++◌, map}
use oxicast.Common.Int.{pos}
use oxicast.Types.{
  Image, MediaMetadata, generic, movie, tv_show, music_track, photo, audiobook_chapter, StreamType,
  buffered, live, MediaInfo, QueueItem,
}
use oxicast.Serde.{SerdeJson}

abbrev pub stream_type_name : StreamType → String
stream_type_name buffered = "BUFFERED"
stream_type_name live = "LIVE"
stream_type_name StreamType.none = "NONE"

module _ (j : SerdeJson) where
  open j use {Value, object, array, string, bool, u64, i64, f64}

  abbrev pub Entries : Type 0
  Entries = List (String × Value)

  -- `insert_opt`, as the entries that it adds.
  abbrev pub opt_entry {ℓ} : {A : Type ℓ} → String → (A → Value) → Option A → Entries
  opt_entry key into none = []
  opt_entry key into (some v) = (key, into v) ∷ []

  unfoldable pub serialize_image : Image → Value
  serialize_image i =
      object
        (("url", string i.url) ∷ opt_entry "width" u64 i.width ++ opt_entry "height" u64 i.height)

  unfoldable pub serialize_images : List Image → Value
  serialize_images images = array (map serialize_image images)

  abbrev pub metadata_entries : MediaMetadata → Entries
  metadata_entries (generic title subtitle images) =
      ("metadataType", i64 (pos 0)) ∷ opt_entry "title" string title
      ++ opt_entry "subtitle" string subtitle
      ++ ("images", serialize_images images) ∷ []
  metadata_entries (movie title subtitle studio images) =
      ("metadataType", i64 (pos 1)) ∷ opt_entry "title" string title
      ++ opt_entry "subtitle" string subtitle
      ++ opt_entry "studio" string studio
      ++ ("images", serialize_images images) ∷ []
  metadata_entries (tv_show series_title episode_title season episode images) =
      ("metadataType", i64 (pos 2)) ∷ opt_entry "seriesTitle" string series_title
      ++ opt_entry "title" string episode_title
      ++ opt_entry "season" u64 season
      ++ opt_entry "episode" u64 episode
      ++ ("images", serialize_images images) ∷ []
  metadata_entries (music_track title artist album_name composer track_number disc_number images) =
      ("metadataType", i64 (pos 3)) ∷ opt_entry "title" string title
      ++ opt_entry "artist" string artist
      ++ opt_entry "albumName" string album_name
      ++ opt_entry "composer" string composer
      ++ opt_entry "trackNumber" u64 track_number
      ++ opt_entry "discNumber" u64 disc_number
      ++ ("images", serialize_images images) ∷ []
  metadata_entries (photo title artist location latitude longitude width height images) =
      ("metadataType", i64 (pos 4)) ∷ opt_entry "title" string title
      ++ opt_entry "artist" string artist
      ++ opt_entry "location" string location
      ++ opt_entry "latitude" f64 latitude
      ++ opt_entry "longitude" f64 longitude
      ++ opt_entry "width" u64 width
      ++ opt_entry "height" u64 height
      ++ ("images", serialize_images images) ∷ []
  metadata_entries (audiobook_chapter book_title chapter_title chapter_number subtitle images) =
      ("metadataType", i64 (pos 5)) ∷ opt_entry "bookTitle" string book_title
      ++ opt_entry "chapterTitle" string chapter_title
      ++ opt_entry "chapterNumber" u64 chapter_number
      ++ opt_entry "subtitle" string subtitle
      ++ ("images", serialize_images images) ∷ []

  unfoldable pub serialize_metadata : MediaMetadata → Value
  serialize_metadata meta = object (metadata_entries meta)

  -- The object that `load` and `serialize_queue_item` build for a medium.
  unfoldable pub media_object : MediaInfo → Value
  media_object media = object (
      ("contentId", string media.content_id)
        ∷ ("contentType", string media.content_type)
        ∷ ("streamType", string (stream_type_name media.stream_type))
        ∷ opt_entry "duration" f64 media.duration
      ++ opt_entry "metadata" serialize_metadata media.metadata)

  unfoldable pub serialize_queue_item : QueueItem → Value
  unfolding media_object
  serialize_queue_item item = object (
      ("media", media_object item.media)
      ∷ ("autoplay", bool item.autoplay)
      ∷ ("startTime", f64 item.start_time)
      ∷ [])
