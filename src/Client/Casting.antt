-- ===== src/Client/Casting.antt =====
-- `serve_and_cast` of src/client.rs: a file server started, a file registered, and its URL loaded.
use oxicast.Common.{ℕ, String, Bool, none}
use oxicast.Common.Int.{ℤ}
use oxicast.Types.{F64, F32, MediaStatus}
use oxicast.Types.Media
use oxicast.Error.{Result, ok, err}
use oxicast.Serde.{SerdeJson}
use oxicast.Serve.Registry.{FileServer, Net, Call, start, serve_file}
use oxicast.Client.State.{Command, ◌>>=◌, lift}
use oxicast.Client.Request.{Reply}
use oxicast.Client.Playback.{load_media}

-- The URL and the server after the registration.
abbrev pub registration : Result String × ℕ × FileServer → Result (String × FileServer)
registration (ok url, _, t) = ok (url, t)
registration (err e, _, t) = err e

module _ (j : SerdeJson) (to_f32 : F64 → F32) (show_i64 : ℤ → String) (show_u16 : ℕ → String) where
  open j use {Value}

  -- From the counter of file ids, which moves as in `serve_file`.
  unfoldable pub serve_and_cast :
      Net
      → Call
      → (autoplay : Bool) → (current_time : F64) → Reply Value
      → (counter : ℕ) → Command Value (FileServer × MediaStatus)
  serve_and_cast net call autoplay current_time reply counter = do
    server ← lift (start net)
    (url, registered) ← lift (registration (serve_file show_u16 call counter server))
    status ←
        load_media j to_f32 show_i64 (Media.new url call.content_type) autoplay current_time none
          reply
    lift (ok (registered, status))
