-- ===== src/Channel/Connection.antt =====
-- src/channel/connection.rs: the messages of a virtual connection.
use oxicast.Common.{String, [], ◌∷◌}
use oxicast.Ns
use oxicast.Message.{CastMessage, build_message}
use oxicast.Serde.{SerdeJson}

module _ (j : SerdeJson) where
  open j use {object, string}

  unfoldable pub connect_msg : (destination : String) → CastMessage
  connect_msg destination = build_message Ns.ns_connection Ns.sender_id destination (
      j.to_string
        (object (("type", string Ns.msg_connect) ∷ ("userAgent", string Ns.user_agent) ∷ [])))

  unfoldable pub close_msg : (destination : String) → CastMessage
  close_msg destination =
      build_message Ns.ns_connection Ns.sender_id destination
        (j.to_string (object (("type", string Ns.msg_close) ∷ [])))
