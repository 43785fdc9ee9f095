-- ===== src/Tests/Base.antt =====
-- JSON texts, messages and a client's state that the other runs use.
use oxicast.Common.{String, Option, none, some, [], ◌∷◌, str_eq, if◌then◌else◌}
use oxicast.Common.Int.{ℤ, pos}
use oxicast.Types.{F64, F32}
use oxicast.Ns
use oxicast.Event.{ConnectionState}
use oxicast.Message.{CastMessage, build_message}
use oxicast.Tracker.{Tracker}
use oxicast.Serde.{SerdeJson, IsLawful}
use oxicast.Serde.Instance.{
  Json, u64, f64, str, arr, obj, nil, cons, end, field, sample, sample-IsLawful,
}
use oxicast.Router.{World}
use oxicast.Client.State.{Client}

-- A media status: session 4 is playing, in answer to request 7.
abbrev pub playing_status : Json
playing_status = obj (
    field "type" (str "MEDIA_STATUS") (
      field "requestId" (u64 7) (
        field "status"
          (arr (
            cons (obj (field "playerState" (str "PLAYING") (field "mediaSessionId" (u64 4) end)))
              nil))
          end)))

-- A receiver status with the default media receiver running.
abbrev pub running_status : Json
running_status = obj (
    field "type" (str "RECEIVER_STATUS") (
      field "requestId" (u64 8) (
        field "status"
          (obj (
            field "volume" (obj (field "level" (f64 0) end)) (
              field "applications"
                (arr (
                  cons
                    (obj (
                      field "appId" (str "CC1AD845")
                        (field "sessionId" (str "s1") (field "transportId" (str "t1") end))))
                    nil))
                end)))
          end)))

abbrev pub custom_answer : Json
custom_answer = obj (field "requestId" (u64 9) end)

abbrev pub read : String → Option Json
read text =
    if str_eq text "playing"
    then some playing_status
    else if str_eq text "running"
    then some running_status
    else if str_eq text "answer"
    then some custom_answer
    else if str_eq text "plain"
    then some (str "hello")
    else none

abbrev pub json : SerdeJson
json = sample read

pub json-IsLawful : IsLawful json
json-IsLawful = sample-IsLawful read

abbrev pub to_f32 : F64 → F32
to_f32 x = 0

abbrev pub show_i64 : ℤ → String
show_i64 z = "0"

abbrev pub media_msg : CastMessage
media_msg = build_message Ns.ns_media "t1" "sender-0" "playing"

abbrev pub receiver_msg : CastMessage
receiver_msg = build_message Ns.ns_receiver "receiver-0" "sender-0" "running"

abbrev pub answer_msg : CastMessage
answer_msg = build_message "urn:x-cast:app" "t1" "sender-0" "answer"

abbrev pub plain_msg : CastMessage
plain_msg = build_message "urn:x-cast:app" "t1" "sender-0" "plain"

abbrev pub ping_msg : CastMessage
ping_msg = build_message Ns.ns_heartbeat "receiver-0" "sender-0" "{\"type\":\"PING\"}"

-- Request 7 waits on channel 3.
abbrev pub waiting : Tracker Json
waiting = record { counter = 7; pending = (7, 3) ∷ []; channels = 4; sent = [] }

abbrev pub world : World Json
world = record {
  tracker = waiting;
  state = record {
    media = none;
    receiver = none;
    connection = ConnectionState.connected;
    media_session_id = pos 0;
  };
  events = [];
  written = [];
}

-- No application, and one with and without a media session.
abbrev pub fresh_client : Client Json
fresh_client = record {
  world = world;
  transport_id = none;
  session_id = none;
  request_timeout = 10;
}

abbrev pub app_client : Client Json
app_client = record fresh_client { transport_id = some "t1"; session_id = some "s1" }

abbrev pub media_client : Client Json
media_client = record app_client {
  world = record world { state = record (world.state) { media_session_id = pos 4 } };
}
