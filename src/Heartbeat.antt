-- ===== src/Heartbeat.antt =====
-- src/client/heartbeat.rs: heartbeat messages, and the task that sends pings and watches for life.
pub mod Task
pub mod Timing
use oxicast.Common.{
  String, Bool, true, false, Option, none, some, [], ◌∷◌, contains, not, if◌then◌else◌, str_eq,
}
use oxicast.Ns
use oxicast.Message.{CastMessage, build_message}
use oxicast.Serde.{SerdeJson}

abbrev pub payload_contains : Option String → String → Bool
payload_contains none t = false
payload_contains (some p) t = contains p t

unfoldable pub is_ping : CastMessage → Bool
is_ping msg =
    if not (str_eq msg.namespace Ns.ns_heartbeat)
    then false
    else payload_contains msg.payload_utf8 "\"PING\""

module _ (j : SerdeJson) where
  unfoldable pub pong : CastMessage
  pong =
      build_message Ns.ns_heartbeat Ns.sender_id Ns.receiver_id
        (j.to_string (j.object (("type", j.string Ns.msg_pong) ∷ [])))

  unfoldable pub ping : CastMessage
  ping =
      build_message Ns.ns_heartbeat Ns.sender_id Ns.receiver_id
        (j.to_string (j.object (("type", j.string Ns.msg_ping) ∷ [])))
