-- ===== src/Channel/Receiver.antt =====
-- The requests of src/channel/receiver.rs.
use oxicast.Common.{ℕ, String, Bool, Option, List, [], ◌∷◌, ◌++◌}
use oxicast.Types.{F32}
use oxicast.Ns
use oxicast.Message.{CastMessage, build_message}
use oxicast.Serde.{SerdeJson}
use oxicast.Channel.Metadata.{opt_entry}

module _ (j : SerdeJson) where
  open j use {Value, object, string, bool, u64, f32}

  abbrev pub receiver_message : (kind : String) → ℕ → List (String × Value) → CastMessage
  receiver_message kind request_id more =
      build_message Ns.ns_receiver Ns.sender_id Ns.receiver_id
        (j.to_string (object (("type", string kind) ∷ ("requestId", u64 request_id) ∷ more)))

  unfoldable pub get_status : ℕ → CastMessage
  get_status request_id = receiver_message Ns.msg_get_status request_id []

  unfoldable pub launch_app : ℕ → (app_id : String) → CastMessage
  launch_app request_id app_id =
      receiver_message Ns.msg_launch request_id (("appId", string app_id) ∷ [])

  unfoldable pub stop_app : ℕ → (session_id : String) → CastMessage
  stop_app request_id session_id =
      receiver_message Ns.msg_stop request_id (("sessionId", string session_id) ∷ [])

  unfoldable pub set_volume : ℕ → (level : Option F32) → (muted : Option Bool) → CastMessage
  set_volume request_id level muted =
      receiver_message Ns.msg_set_volume request_id
        (("volume", object (opt_entry j "level" f32 level ++ opt_entry j "muted" bool muted)) ∷ [])
