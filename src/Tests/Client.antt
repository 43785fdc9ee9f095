-- ===== src/Tests/Client.antt =====
-- Runs of the client's commands.
mod Calls
mod Lifecycle
mod Answered
mod Casting
mod Builder
use oxicast.Common.{
  ℕ, ◌*◌, ◌<◌, ◌≤◌, ◌^◌, ◌-◌, ◌≡◌, ◌≢◌, refl, arith, String, true, false, none, some, [], ◌∷◌, ◌++◌,
  ◌⊎◌, inl, ◌↔◌,
}
use oxicast.Common.Int.{pos}
use oxicast.Types.{
  MediaInfo, MediaStatus, playing, idle, buffered, Application, repeat_off, default_media_receiver,
  app_id,
}
use oxicast.Event.{as_receiver_status}
use oxicast.Error.{ok, err, disconnected, timeout}
use oxicast.Message.{CastMessage, build_message}
use oxicast.State.{set_media_session_id}
use oxicast.Channel.Receiver
use oxicast.Tracker.{
  received, sender_dropped, elapsed, register, resolve, wait_for, get, insert, remove, deliver,
  forget, next_id,
}
use oxicast.Serde.Instance.{Json, str, obj, field, end}
use oxicast.Router.{
  route, route_media, route_media_as, route_receiver, on_media_status, on_receiver_status,
  resolve_if_positive, classify_media_message,
}
use oxicast.Router.Parse.Media.{parse_media_status}
use oxicast.Router.Parse.Receiver.{parse_receiver_status}
use oxicast.Router.Session.{route_all}
use oxicast.Client.State.{Command, send, get_transport_id, get_session_id, get_media_session_id}
use oxicast.Router.Traffic.{reads, beats, heartbeats, pass_all}
use oxicast.Client.Request.{Reply, request, register_request, wait}
use oxicast.Client.Device.{check_device_error, check_loaded}
use oxicast.Client.Receiver.{launch_app, stop_app, adopt_app, await_app, find_app}
use oxicast.Client.Playback.{
  load_media, finish_load, play, pause, seek, stop_media, session_command,
}
use oxicast.Client.Queue.{queue_load, queue_insert}
use oxicast.Client.Backoff.{retry_delay, saturating_pow2, retry_delay_bounds}
use oxicast.Client.Laws.Guards.{Refuses, NeedsSession, need_application, need_session}
use oxicast.Client.Laws.Requests.{request-refused, request-sent}
use oxicast.Client.Laws.Sessions.{load-ok, stop_app-ok, IsErrorType, check_device_error-ok_iff}
use oxicast.Client.Laws.Launch.{IsAdopted, launch_app-ok}
use oxicast.Tests.Base.{
  json, to_f32, show_i64, fresh_client, app_client, media_msg, receiver_msg, playing_status,
  running_status, custom_answer,
}

commands : Unit {0}
unfolding build_message set_media_session_id register resolve wait_for get insert remove deliver
    forget next_id route route_media route_media_as route_receiver on_media_status
    on_receiver_status resolve_if_positive classify_media_message parse_media_status
    parse_receiver_status route_all pass_all send get_transport_id get_session_id
    get_media_session_id request register_request wait check_device_error check_loaded launch_app
    stop_app adopt_app await_app find_app load_media finish_load play pause seek stop_media
    session_command queue_load queue_insert as_receiver_status app_id
commands = tt

-- The device answers with a status, and the reader routes it.
abbrev pub playing_reply : Reply Json
playing_reply = record {
  accepted = true;
  meanwhile = reads media_msg ∷ [];
  outcome = received playing_status;
}

-- The device answers the launch with nothing of use, and lists the application later.
abbrev empty_reply : Reply Json
empty_reply = record { accepted = true; meanwhile = []; outcome = received custom_answer }

abbrev running_reply : Reply Json
running_reply = record {
  accepted = true;
  meanwhile = reads receiver_msg ∷ [];
  outcome = received running_status;
}

abbrev silent_reply : Reply Json
silent_reply = record { accepted = true; meanwhile = beats ∷ []; outcome = elapsed }

abbrev refused_reply : Reply Json
refused_reply = record { accepted = false; meanwhile = []; outcome = elapsed }

abbrev medium : MediaInfo
medium = record {
  content_id = "http://x/1.mp4";
  content_type = "video/mp4";
  stream_type = buffered;
  duration = none;
  metadata = none;
}

abbrev status : MediaStatus
status = record {
  media_session_id = pos 4;
  player_state = playing;
  idle_reason = none;
  current_time = 0;
  duration = none;
  volume = record { level = 0; muted = false };
  media = none;
}

abbrev receiver_app : Application
receiver_app = record {
  app_id = "CC1AD845";
  display_name = "";
  session_id = "s1";
  transport_id = "t1";
  namespaces = [];
  status_text = "";
}

abbrev load_run : Command Json MediaStatus
load_run = load_media json to_f32 show_i64 medium true 0 none playing_reply

abbrev build : ℕ → CastMessage
build id = Receiver.get_status json id

abbrev message_of : String → Json
message_of kind = obj (field "type" (str kind) end)

command_tests :
    ((load_run app_client).0 ≡ ok status)
    × ((load_run app_client).1.state.media_session_id ≡ pos 4)
    × ((request json to_f32 build silent_reply app_client).0 ≡ err (timeout 10))
    × ((request json to_f32 build silent_reply app_client).1.tracker.pending ≡ (7, 3) ∷ [])
unfolding commands
command_tests = (refl, refl, refl, refl)

request-sent_example :
    (0 < 8)
    × (8 < 2 ^ 32)
    × ((request json to_f32 build silent_reply app_client).1.written
        ≡ heartbeats json (beats ∷ []) ++ (build 8 ∷ []))
    × ((request json to_f32 build silent_reply app_client).1.tracker.channels ≡ 5)
    × ((v : Json)
        → elapsed ≡ received v
        → (request json to_f32 build silent_reply app_client).0 ≡ ok v)
    × (silent_reply.outcome ≡ sender_dropped
        → ((request json to_f32 build silent_reply app_client).0 ≡ err disconnected)
          × (get 8 (request json to_f32 build silent_reply app_client).1.tracker.pending ≡ none))
    × (silent_reply.outcome ≡ elapsed
        → ((request json to_f32 build silent_reply app_client).0 ≡ err (timeout 10))
          × (get 8 (request json to_f32 build silent_reply app_client).1.tracker.pending ≡ none))
unfolding next_id
request-sent_example = request-sent json to_f32 build app_client silent_reply refl (omega arith)

request-refused_example :
    let (result, after) = request json to_f32 build refused_reply app_client in
    (result ≡ err disconnected)
    × (after.written ≡ [])
    × (get (next_id 7) after.tracker.pending ≡ some 4)
request-refused_example = request-refused json to_f32 build app_client refused_reply refl

launch_app-ok_example :
    IsAdopted json to_f32 show_i64 "CC1AD845" receiver_app
      (launch_app json to_f32 show_i64 default_media_receiver running_reply true [] fresh_client).1
unfolding commands
launch_app-ok_example =
    launch_app-ok json to_f32 show_i64 default_media_receiver running_reply true [] receiver_app
      fresh_client
      (launch_app json to_f32 show_i64 default_media_receiver running_reply true [] fresh_client).1
      refl

load-ok_example :
    ((playing ≢ idle) ⊎ (status.media ≢ none))
    × (app_client.transport_id ≢ none)
    × (app_client.session_id ≢ none)
unfolding commands
load-ok_example =
    load-ok json to_f32 show_i64 medium true 0 none [] 0 repeat_off playing_reply app_client
      (load_run app_client).1 status (inl refl)

-- One second, at the third attempt.
retry_delay_bounds_example :
    (d : ℕ) × (retry_delay 1000000000 3 77 ≡ some d)
    × (3 * (1000000000 * saturating_pow2 (3 - 1)) ≤ 4 * d)
    × (4 * d ≤ 5 * (1000000000 * saturating_pow2 (3 - 1)))
unfolding saturating_pow2
retry_delay_bounds_example = retry_delay_bounds 1000000000 3 77 (omega arith)
