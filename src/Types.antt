-- ===== src/Types.antt =====
-- src/types.rs: the data that the client, the router and the channels share.
pub mod Display
pub mod Media
mod Float
mod Enums
unfoldable pub use Float.*
pub use Enums.*
use oxicast.Common.{ℕ, String, Bool, true, false, Option, none, some, List, []}
use oxicast.Common.Int.{ℤ}
use oxicast.Ns

-- `std::net::IpAddr`: an address is its 32-bit or 128-bit number.
pub data IpAddr : Type 0 where
  v4 v6 : ℕ → IpAddr

pub record DeviceInfo : Type 0 where
  pub name : String
  pub ip : IpAddr
  pub port : ℕ
  pub model : Option String
  pub uuid : Option String

pub record Volume : Type 0 where
  pub level : F32
  pub muted : Bool

pub record Image : Type 0 where
  pub url : String
  pub width : Option ℕ
  pub height : Option ℕ

pub data MediaMetadata : Type 0 where
  generic : (title subtitle : Option String) (images : List Image) → MediaMetadata
  movie : (title subtitle studio : Option String) (images : List Image) → MediaMetadata
  tv_show :
      (series_title episode_title : Option String) (season episode : Option ℕ) (images : List Image)
      → MediaMetadata
  music_track :
      (title artist album_name composer : Option String) (track_number disc_number : Option ℕ)
      (images : List Image)
      → MediaMetadata
  photo :
      (title artist location : Option String) (latitude longitude : Option F64)
      (width height : Option ℕ) (images : List Image)
      → MediaMetadata
  audiobook_chapter :
      (book_title chapter_title : Option String) (chapter_number : Option ℕ)
      (subtitle : Option String) (images : List Image)
      → MediaMetadata

pub record MediaInfo : Type 0 where
  pub content_id : String
  pub content_type : String
  pub stream_type : StreamType
  pub duration : Option F64
  pub metadata : Option MediaMetadata

pub record MediaStatus : Type 0 where
  pub media_session_id : ℤ
  pub player_state : PlayerState
  pub idle_reason : Option IdleReason
  pub current_time : F64
  pub duration : Option F64
  pub volume : Volume
  pub media : Option MediaInfo

pub record Application : Type 0 where
  pub app_id : String
  pub display_name : String
  pub session_id : String
  pub transport_id : String
  pub namespaces : List String
  pub status_text : String

pub record ReceiverStatus : Type 0 where
  pub volume : Volume
  pub applications : List Application
  pub is_active_input : Bool
  pub is_stand_by : Bool

pub record QueueItem : Type 0 where
  pub media : MediaInfo
  pub autoplay : Bool
  pub start_time : F64

-- `CastApp::app_id`.
unfoldable pub app_id : CastApp → String
app_id default_media_receiver = Ns.app_default_media_receiver
app_id backdrop = Ns.app_backdrop
app_id you_tube = Ns.app_youtube
app_id (custom id) = id
