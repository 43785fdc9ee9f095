-- ===== src/Client/Raw.antt =====
-- `send_raw` and `send_raw_no_reply` of src/client.rs.
use oxicast.Common.{ℕ, String, Bool, if◌then◌else◌}
use oxicast.Types.{F64, F32}
use oxicast.Error.{err, invalid_payload}
use oxicast.Message.{build_message}
use oxicast.Serde.{SerdeJson}
use oxicast.Client.State.{Command, lift, send}
use oxicast.Client.Request.{Reply, request}

module _ (j : SerdeJson) (to_f32 : F64 → F32) where
  open j use {Value}

  -- `payload["requestId"] = json!(id)`.
  abbrev pub with_request_id : Value → ℕ → Value
  with_request_id payload id = j.set payload "requestId" (j.u64 id)

  unfoldable pub send_raw :
      (namespace destination : String) → Value → Reply Value → Command Value Value
  send_raw namespace destination payload reply =
      if j.is_object payload
      then request j to_f32
          (λ id.
            build_message namespace "sender-0" destination
              (j.to_string (with_request_id payload id)))
          reply
      else lift (err invalid_payload)

  unfoldable pub send_raw_no_reply :
      (namespace destination : String) → Value → (accepted : Bool) → Command Value (Unit {0})
  send_raw_no_reply namespace destination payload =
      send (build_message namespace "sender-0" destination (j.to_string payload))
