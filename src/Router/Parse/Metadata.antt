-- ===== src/Router/Parse/Metadata.antt =====
-- `parse_metadata` and `parse_images`.
pub mod Entries
pub mod Images
pub mod Roundtrip
use oxicast.Common.{
  ℕ, String, Option, none, some, List, [], ◌==◌, if◌then◌else◌, option_map, and_then, or_else,
  unwrap_or, filter_map,
}
use oxicast.Common.Int.{as_u32}
use oxicast.Types.{
  Image, MediaMetadata, generic, movie, tv_show, music_track, photo, audiobook_chapter,
}
use oxicast.Ns.{
  metadata_generic, metadata_movie, metadata_tv_show, metadata_music_track, metadata_photo,
  metadata_audiobook_chapter,
}
use oxicast.Serde.{SerdeJson}
use oxicast.Router.Parse.Fields.{get_str, get_u64, get_f64, get_array}

module _ (j : SerdeJson) where
  open j use {Value, get, as_str}

  -- `.get(key).and_then(|v| v.as_u64()).map(|v| v as u32)`.
  abbrev pub get_u32 : Value → String → Option ℕ
  get_u32 v key = option_map as_u32 (get_u64 j v key)

  abbrev pub parse_image : Value → Option Image
  parse_image img =
      option_map
        (λ url. record { url = url; width = get_u32 img "width"; height = get_u32 img "height" })
        (get_str j img "url")

  unfoldable pub parse_images : Value → List Image
  parse_images meta = unwrap_or (option_map (filter_map parse_image) (get_array j meta "images")) []

  -- A string under the first of two keys that is there at all.
  abbrev pub get_str_or : Value → String → String → Option String
  get_str_or v key other = and_then (or_else (get v key) (get v other)) as_str

  abbrev pub parse_generic : Value → MediaMetadata
  parse_generic meta =
      generic (get_str j meta "title") (get_str j meta "subtitle") (parse_images meta)

  abbrev pub parse_movie : Value → MediaMetadata
  parse_movie meta =
      movie (get_str j meta "title") (get_str j meta "subtitle") (get_str j meta "studio")
        (parse_images meta)

  abbrev pub parse_tv_show : Value → MediaMetadata
  parse_tv_show meta =
      tv_show (get_str j meta "seriesTitle") (get_str_or meta "episodeTitle" "title")
        (get_u32 meta "season") (get_u32 meta "episode") (parse_images meta)

  abbrev pub parse_music_track : Value → MediaMetadata
  parse_music_track meta =
      music_track (get_str j meta "title") (get_str_or meta "artist" "albumArtist")
        (get_str j meta "albumName") (get_str j meta "composer") (get_u32 meta "trackNumber")
        (get_u32 meta "discNumber") (parse_images meta)

  abbrev pub parse_photo : Value → MediaMetadata
  parse_photo meta =
      photo (get_str j meta "title") (get_str j meta "artist") (get_str j meta "location")
        (get_f64 j meta "latitude") (get_f64 j meta "longitude") (get_u32 meta "width")
        (get_u32 meta "height") (parse_images meta)

  abbrev pub parse_audiobook_chapter : Value → MediaMetadata
  parse_audiobook_chapter meta =
      audiobook_chapter (get_str j meta "bookTitle") (get_str j meta "chapterTitle")
        (get_u32 meta "chapterNumber") (get_str j meta "subtitle") (parse_images meta)

  abbrev pub parse_metadata_of : ℕ → Value → MediaMetadata
  parse_metadata_of metadata_type meta =
      if metadata_type == metadata_generic
      then parse_generic meta
      else if metadata_type == metadata_movie
      then parse_movie meta
      else if metadata_type == metadata_tv_show
      then parse_tv_show meta
      else if metadata_type == metadata_music_track
      then parse_music_track meta
      else if metadata_type == metadata_photo
      then parse_photo meta
      else if metadata_type == metadata_audiobook_chapter
      then parse_audiobook_chapter meta
      else parse_generic meta

  unfoldable pub parse_metadata : Value → Option MediaMetadata
  parse_metadata meta = some (parse_metadata_of (unwrap_or (get_u64 j meta "metadataType") 0) meta)
