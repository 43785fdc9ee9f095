-- ===== src/Router/Parse/Metadata/Images.antt =====
-- `parse_images` reads back what `serialize_images` writes.
use oxicast.Common.{◌≡◌, refl, some, List, [], ◌∷◌, All, map, filter_map, ap}
use oxicast.Types.{Image}
use oxicast.Serde.{SerdeJson, IsLawful}
use oxicast.Channel.Metadata.{serialize_image, serialize_images}
use oxicast.Router.Parse.Metadata.{parse_image, parse_images}
use oxicast.Router.Parse.Metadata.Entries.{
  OptHolds, IsU32, or_else-none, last_entry-append, last_entry-opt, as_u32-map,
}

pub record IsWireImage (i : Image) : Type 0 where
  pub width_fits : OptHolds IsU32 i.width
  pub height_fits : OptHolds IsU32 i.height

module _ (j : SerdeJson) (laws : IsLawful j) where
  parse_image-serialize : (i : Image) → IsWireImage i → parse_image j (serialize_image j i) ≡ some i
  unfolding serialize_image
  parse_image-serialize i h = simp (
    laws.get-object,
    last_entry-append,
    last_entry-opt {0} j,
    or_else-none,
    laws.as_str-string,
    as_u32-map j laws i.width h.width_fits,
    as_u32-map j laws i.height h.height_fits,
  )

  filter_map-serialize :
      (images : List Image)
      → All IsWireImage images
      → filter_map (parse_image j) (map (serialize_image j) images) ≡ images
  filter_map-serialize [] h = refl
  filter_map-serialize (i ∷ images) h =
      rw (parse_image-serialize i h.0, filter_map) (ap (◌∷◌ i) (filter_map-serialize images h.1))

  -- A list of images comes back as it was, if the sizes fit in a `u32`.
  pub parse_images_of_entry :
      (meta : j.Value) (images : List Image)
      → All IsWireImage images
      → j.get meta "images" ≡ some (serialize_images j images)
      → parse_images j meta ≡ images
  unfolding parse_images serialize_images
  parse_images_of_entry meta images h e =
      rw (e, laws.as_array-array (map (serialize_image j) images)) (filter_map-serialize images h)
