-- ===== src/Router/Parse/Metadata/Roundtrip.antt =====
-- `parse_metadata` reads back what `serialize_metadata` of src/channel/media.rs writes.
use oxicast.Common.{◌≡◌, some, List, All, arith, ◌∙◌}
use oxicast.Types.{
  Image, MediaMetadata, generic, movie, tv_show, music_track, photo, audiobook_chapter,
}
use oxicast.Serde.{SerdeJson, IsLawful, last_entry}
use oxicast.Channel.Metadata.{metadata_entries, serialize_metadata, serialize_images}
use oxicast.Router.Parse.Metadata.{parse_metadata, parse_images}
use oxicast.Router.Parse.Metadata.Entries.{
  OptHolds, IsU32, IsFinite, entry_laws, as_str-map, as_u32-map, as_f64-map,
}
use oxicast.Router.Parse.Metadata.Images.{IsWireImage, parse_images_of_entry}

-- The numbers fit in a `u32`, and the coordinates are finite.
abbrev pub IsWireMetadata : MediaMetadata → Type 0
IsWireMetadata (generic title subtitle images) = All IsWireImage images
IsWireMetadata (movie title subtitle studio images) = All IsWireImage images
IsWireMetadata (tv_show series_title episode_title season episode images) =
    OptHolds IsU32 season × OptHolds IsU32 episode × All IsWireImage images
IsWireMetadata (music_track title artist album_name composer track_number disc_number images) =
    OptHolds IsU32 track_number × OptHolds IsU32 disc_number × All IsWireImage images
IsWireMetadata (photo title artist location latitude longitude width height images) =
    OptHolds IsFinite latitude
    × OptHolds IsFinite longitude
    × OptHolds IsU32 width
    × OptHolds IsU32 height
    × All IsWireImage images
IsWireMetadata (audiobook_chapter book_title chapter_title chapter_number subtitle images) =
    OptHolds IsU32 chapter_number × All IsWireImage images

module _ (j : SerdeJson) (laws : IsLawful j) where
  images_field :
      (m : MediaMetadata) (images : List Image)
      → All IsWireImage images
      → last_entry "images" (metadata_entries j m) ≡ some (serialize_images j images)
      → parse_images j (serialize_metadata j m) ≡ images
  unfolding serialize_metadata
  images_field m images h e =
      parse_images_of_entry j laws _ images h (laws.get-object (metadata_entries j m) "images" ∙ e)

  -- Metadata of every kind, whose integers are `u32`s and whose coordinates are finite, is parsed
  -- back from its JSON as it was.
  pub parse_metadata-serialize_metadata :
      (m : MediaMetadata) → IsWireMetadata m → parse_metadata j (serialize_metadata j m) ≡ some m
  unfolding parse_metadata serialize_metadata
  parse_metadata-serialize_metadata (generic title subtitle images) h = simp (
    laws.get-object,
    laws.as_u64-i64 0 (omega arith),
    entry_laws,
    as_str-map j laws,
    images_field (generic title subtitle images) images h (simp entry_laws),
  )
  parse_metadata-serialize_metadata (movie title subtitle studio images) h = simp (
    laws.get-object,
    laws.as_u64-i64 1 (omega arith),
    entry_laws,
    as_str-map j laws,
    images_field (movie title subtitle studio images) images h (simp entry_laws),
  )
  parse_metadata-serialize_metadata (tv_show series_title episode_title season episode images) h =
      simp (
        laws.get-object,
        laws.as_u64-i64 2 (omega arith),
        entry_laws,
        as_str-map j laws,
        images_field (tv_show series_title episode_title season episode images) images h.2
            (simp entry_laws),
        as_u32-map j laws season h.0,
        as_u32-map j laws episode h.1,
      )
  parse_metadata-serialize_metadata
        (music_track title artist album_name composer track_number disc_number images) h =
      simp (
        laws.get-object,
        laws.as_u64-i64 3 (omega arith),
        entry_laws,
        as_str-map j laws,
        images_field (music_track title artist album_name composer track_number disc_number images)
            images h.2 (simp entry_laws),
        as_u32-map j laws track_number h.0,
        as_u32-map j laws disc_number h.1,
      )
  parse_metadata-serialize_metadata
        (photo title artist location latitude longitude width height images) h =
      simp (
        laws.get-object,
        laws.as_u64-i64 4 (omega arith),
        entry_laws,
        as_str-map j laws,
        images_field (photo title artist location latitude longitude width height images) images h.4
            (simp entry_laws),
        as_f64-map j laws latitude h.0,
        as_f64-map j laws longitude h.1,
        as_u32-map j laws width h.2,
        as_u32-map j laws height h.3,
      )
  parse_metadata-serialize_metadata
        (audiobook_chapter book_title chapter_title chapter_number subtitle images) h =
      simp (
        laws.get-object,
        laws.as_u64-i64 5 (omega arith),
        entry_laws,
        as_str-map j laws,
        images_field (audiobook_chapter book_title chapter_title chapter_number subtitle images)
            images h.1 (simp entry_laws),
        as_u32-map j laws chapter_number h.0,
      )
