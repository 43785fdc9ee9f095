-- ===== src/Message.antt =====
-- src/proto_gen.rs: the message on the wire, and `build_message` of src/client/framing.rs.
pub mod Auth
pub mod Names
use oxicast.Common.{ℕ, String, Bool, Option, none, some, List}

pub data ProtocolVersion : Type 0 where
  castv210 castv211 castv212 castv213 : ProtocolVersion

pub data PayloadType : Type 0 where
  string binary : PayloadType

-- `as i32`.
abbrev pub version_number : ProtocolVersion → ℕ
version_number castv210 = 0
version_number castv211 = 1
version_number castv212 = 2
version_number castv213 = 3

abbrev pub type_number : PayloadType → ℕ
type_number string = 0
type_number binary = 1

pub record CastMessage : Type 0 where
  pub protocol_version : ℕ
  pub source_id : String
  pub destination_id : String
  pub namespace : String
  pub payload_type : ℕ
  pub payload_utf8 : Option String
  pub payload_binary : Option (List ℕ)
  pub continued : Option Bool
  pub remaining_length : Option ℕ

unfoldable pub build_message : (namespace source destination payload : String) → CastMessage
build_message namespace source destination payload = record {
  protocol_version = version_number castv210;
  source_id = source;
  destination_id = destination;
  namespace = namespace;
  payload_type = type_number string;
  payload_utf8 = some payload;
  payload_binary = none;
  continued = none;
  remaining_length = none;
}
