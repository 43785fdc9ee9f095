-- ===== src/Router/Parse/Media/Laws.antt =====
-- A medium comes back as it was sent, and what every parsed status satisfies.
use oxicast.Common.{
  ◌≡◌, refl, ◌∙◌, true, Option, none, some, List, arith, ap, option_filter, option_map, and_then,
  subst, and_then-some, option_map-some,
}
use oxicast.Common.Int.{ℤ, pos, negsuc, IsI32, as_i32}
use oxicast.Types.{
  F64, F32, f64_positive, StreamType, buffered, live, MediaInfo, MediaStatus, MediaMetadata,
  PlayerState,
}
use oxicast.Serde.{SerdeJson, IsLawful}
use oxicast.Channel.Metadata.{media_object, serialize_metadata, stream_type_name}
use oxicast.Router.Parse.Fields.{get_str, get_i64, get_f64, get_array}
use oxicast.Router.Parse.Metadata.{parse_metadata}
use oxicast.Router.Parse.Metadata.Entries.{OptHolds, IsFinite, entry_laws}
use oxicast.Router.Parse.Metadata.Roundtrip.{IsWireMetadata, parse_metadata-serialize_metadata}
use oxicast.Router.Parse.Media.{
  parse_media_info, parse_media_status, parse_entry, parse_player_state, parse_stream_type, first,
}

parse_stream_type-name : (t : StreamType) → parse_stream_type (stream_type_name t) ≡ t
parse_stream_type-name StreamType.none = refl
parse_stream_type-name buffered = refl
parse_stream_type-name live = refl

-- A duration that the parser keeps.
abbrev pub IsDuration : F64 → Type 0
IsDuration d = IsFinite d × (f64_positive d ≡ true)

pub record IsWireMedia (m : MediaInfo) : Type 0 where
  pub duration_kept : OptHolds IsDuration m.duration
  pub metadata_fits : OptHolds IsWireMetadata m.metadata

module _ (j : SerdeJson) (to_f32 : F64 → F32) (laws : IsLawful j) where
  duration-kept :
      (o : Option F64)
      → OptHolds IsDuration o
      → option_filter f64_positive (and_then (option_map j.f64 o) j.as_f64) ≡ o
  duration-kept none h = refl
  duration-kept (some d) h = rw (laws.as_f64-f64 d h.0, option_filter, h.1)

  metadata-kept :
      (o : Option MediaMetadata)
      → OptHolds IsWireMetadata o
      → and_then (option_map (serialize_metadata j) o) (parse_metadata j) ≡ o
  metadata-kept none h = refl
  metadata-kept (some m) h = parse_metadata-serialize_metadata j laws m h

  -- A medium whose duration, if any, is positive and finite, and whose metadata fits the wire, is
  -- parsed back from the object that a LOAD sends as it was.
  pub parse_media_info-media_object :
      (m : MediaInfo) → IsWireMedia m → parse_media_info j to_f32 (media_object j m) ≡ some m
  unfolding media_object
  parse_media_info-media_object m h = simp (
    laws.get-object,
    entry_laws,
    laws.as_str-string,
    duration-kept m.duration h.duration_kept,
    metadata-kept m.metadata h.metadata_fits,
    parse_stream_type-name,
  )

as_i32-IsI32 : (z : ℤ) → IsI32 (as_i32 z)
as_i32-IsI32 (pos n) = ground arith
as_i32-IsI32 (negsuc n) = ground arith

option_filter-OptHolds :
    (o : Option F64) → OptHolds (λ d. f64_positive d ≡ true) (option_filter f64_positive o)
option_filter-OptHolds none = tt
option_filter-OptHolds (some d) = ground arith

-- A parsed status has an `i32` session id, and a duration, if any, that is positive.
pub record IsSound (s : MediaStatus) : Type 0 where
  pub id_fits : IsI32 s.media_session_id
  pub duration_positive : OptHolds (λ d. f64_positive d ≡ true) s.duration

module _ (j : SerdeJson) (to_f32 : F64 → F32) where
  parse_entry-IsSound :
      (entry : j.Value) (p : PlayerState) (id : ℤ) → IsSound (parse_entry j to_f32 entry p id)
  parse_entry-IsSound entry p id = record {
    id_fits = as_i32-IsI32 id;
    duration_positive =
        option_filter-OptHolds (and_then (j.get entry "media") λ m. get_f64 j m "duration");
  }

  -- A status parses only from a list of entries whose first one names a known player state and a
  -- session id; its id then fits an `i32`, and its duration, if any, is positive.
  pub parse_media_status-IsSound :
      (json : j.Value) (s : MediaStatus)
      → parse_media_status j to_f32 json ≡ some s
      → IsSound s
        × ((entries : List j.Value) × (entry : j.Value) × (id : ℤ) × (get_array j json "status"
              ≡ some entries)
            × (first entries ≡ some entry)
            × (and_then (get_str j entry "playerState") parse_player_state ≡ some s.player_state)
            × (get_i64 j entry "mediaSessionId" ≡ some id)
            × (as_i32 id ≡ s.media_session_id))
  unfolding parse_media_status
  parse_media_status-IsSound json s e =
      let (entries, e₁, f₁) = and_then-some (get_array j json "status") _ e in
      let (entry, e₂, f₂) = and_then-some (first entries) _ f₁ in
      let (p, e₃, f₃) =
        and_then-some (and_then (get_str j entry "playerState") parse_player_state) _ f₂ in
      let (id, e₄, f₄) =
        option_map-some (get_i64 j entry "mediaSessionId") (parse_entry j to_f32 entry p) f₃ in
      (
        subst IsSound f₄ (parse_entry-IsSound entry p id),
        (
          entries,
          entry,
          id,
          e₁,
          e₂,
          e₃ ∙ ap some (ap (λ (t : MediaStatus). t.player_state) f₄),
          e₄,
          ap (λ (t : MediaStatus). t.media_session_id) f₄,
        ),
      )
