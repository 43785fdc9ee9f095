-- ===== src/Client/Laws/Guards.antt =====
-- Commands that need an application or a media session refuse without one, before they do anything.
use oxicast.Common.{ℕ, String, Bool, false, Option, none, some, List, ◌≡◌}
use oxicast.Common.Int.{ℤ, is_positive}
use oxicast.Types.{F64, F32, MediaInfo, MediaStatus, QueueItem, RepeatMode}
use oxicast.Error.{err, no_application, no_media_session}
use oxicast.Serde.{SerdeJson}
use oxicast.Client.State.{Client, Command, get_transport_id, get_media_session_id}
use oxicast.Client.Request.{Reply}
use oxicast.Client.Playback.{load_media, play, pause, seek, stop_media, session_command}
use oxicast.Client.Queue.{queue_load, queue_insert}

module _ (j : SerdeJson) (to_f32 : F64 → F32) (show_i64 : ℤ → String) (c : Client j.Value) where
  abbrev pub Refuses : {A : Type 0} → Command j.Value A → Type 0
  Refuses m = m c ≡ (err no_application, c)

  -- With no application launched, each media and queue command fails with `NoApplication`: it sends
  -- nothing, registers nothing and changes nothing.
  pub need_application :
      c.transport_id ≡ none
      → (reply : Reply j.Value) (media : MediaInfo) (autoplay : Bool) (position : F64)
        (custom : Option j.Value) (items : List QueueItem) (start : ℕ) (mode : RepeatMode)
        (before : Option ℕ)
      → Refuses (load_media j to_f32 show_i64 media autoplay position custom reply)
        × Refuses (play j to_f32 show_i64 reply)
        × Refuses (pause j to_f32 show_i64 reply)
        × Refuses (seek j to_f32 show_i64 position reply)
        × Refuses (stop_media j to_f32 show_i64 reply)
        × Refuses (queue_load j to_f32 show_i64 items start mode reply)
        × Refuses (queue_insert j to_f32 show_i64 items before reply)
  unfolding get_transport_id load_media play pause seek stop_media session_command queue_load
      queue_insert
  need_application e reply media autoplay position custom items start mode before =
      (rw e, rw e, rw e, rw e, rw e, rw e, rw e)

  abbrev pub NeedsSession : Command j.Value MediaStatus → Type 0
  NeedsSession m = m c ≡ (err no_media_session, c)

  -- With an application but no positive media session id, each command about the session fails with
  -- `NoMediaSession`, and changes nothing.
  pub need_session :
      (transport_id : String)
      → c.transport_id ≡ some transport_id
      → is_positive c.state.media_session_id ≡ false
      → (reply : Reply j.Value) (position : F64) (items : List QueueItem) (before : Option ℕ)
      → NeedsSession (play j to_f32 show_i64 reply)
        × NeedsSession (pause j to_f32 show_i64 reply)
        × NeedsSession (seek j to_f32 show_i64 position reply)
        × NeedsSession (stop_media j to_f32 show_i64 reply)
        × NeedsSession (queue_insert j to_f32 show_i64 items before reply)
  unfolding get_transport_id get_media_session_id play pause seek stop_media session_command
      queue_insert
  need_session transport_id e s reply position items before =
      (rw (e, s), rw (e, s), rw (e, s), rw (e, s), rw (e, s))
