-- ===== src/Client/Queue.antt =====
-- The queue commands of src/client.rs: `queue_load` and `queue_insert`.
use oxicast.Common.{ℕ, String, Option, List}
use oxicast.Common.Int.{ℤ}
use oxicast.Types.{F64, F32, QueueItem, RepeatMode, MediaStatus}
use oxicast.Serde.{SerdeJson}
use oxicast.Channel.Media
use oxicast.Client.State.{Command, ◌>>=◌, get_transport_id, get_session_id}
use oxicast.Client.Request.{Reply, request}
use oxicast.Client.Playback.{finish_load, session_command}

module _ (j : SerdeJson) (to_f32 : F64 → F32) (show_i64 : ℤ → String) where
  open j use {Value}

  unfoldable pub queue_load :
      List QueueItem → (start_index : ℕ) → RepeatMode → Reply Value → Command Value MediaStatus
  queue_load items start_index repeat_mode reply = do
    transport_id ← get_transport_id
    session_id ← get_session_id
    json ←
        request j to_f32
          (λ id. Media.queue_load j id transport_id session_id items start_index repeat_mode) reply
    finish_load j to_f32 show_i64 "no media status in queue load response" json

  unfoldable pub queue_insert :
      List QueueItem → (insert_before : Option ℕ) → Reply Value → Command Value MediaStatus
  queue_insert items insert_before =
      session_command j to_f32 show_i64
        (λ id transport_id msid. Media.queue_insert j id transport_id msid items insert_before)
