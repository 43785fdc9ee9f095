-- ===== src/Tests/Router.antt =====
-- Runs of the router and of the heartbeat task.
use oxicast.Common.{ℕ, some, ◌⊎◌, ◌≡◌, refl, arith, true, [], ◌∷◌, ◌++◌, length}
use oxicast.Common.Int.{pos}
use oxicast.Event.{ConnectionState}
use oxicast.Message.{build_message}
use oxicast.State.{set_media_session_id}
use oxicast.Tracker.{resolve, get, deliver, remove}
use oxicast.Heartbeat.{is_ping, pong}
use oxicast.Heartbeat.Task.{tick, Pulse, heartbeat_task}
use oxicast.Heartbeat.Timing.{rounds_of, silence, EndsInTime, heartbeat_task-EndsInTime}
use oxicast.Router.{
  route, route_media, route_media_as, route_custom, route_receiver, route_heartbeat,
  on_media_status, on_receiver_status, resolve_if_positive, classify_media_message,
}
use oxicast.Router.Parse.Media.{parse_media_status}
use oxicast.Router.Parse.Receiver.{parse_receiver_status}
use oxicast.Router.Dispatch.{parsed}
use oxicast.Router.Correlation.{AnswersOne, route-AnswersOne}
use oxicast.Router.Delivery.{IsCustom, route-custom_lost}
use oxicast.Router.Session.{route_all}
use oxicast.Router.InStep.{IsInStep, route_all-IsInStep}
use oxicast.Router.Events.{Adds, route-Adds}
use oxicast.Serde.Instance.{Json}
use oxicast.Tests.Base.{
  json, to_f32, world, media_msg, receiver_msg, answer_msg, plain_msg, ping_msg, playing_status,
  custom_answer,
}

routing : Unit {0}
unfolding route route_media route_media_as route_custom route_receiver route_heartbeat
    on_media_status on_receiver_status resolve_if_positive classify_media_message build_message
    parse_media_status parse_receiver_status set_media_session_id resolve get deliver remove is_ping
    pong
routing = tt

-- A media status answers its request, sets the session and is announced.
route_tests :
    let w = route json to_f32 media_msg world in
    (w.tracker.sent ≡ (3, playing_status) ∷ [])
    × (w.tracker.pending ≡ [])
    × (w.state.media_session_id ≡ pos 4)
    × (length w.events ≡ 1)
    × (length (route json to_f32 ping_msg world).written ≡ 1)
    × (route json to_f32 answer_msg world ≡ world)
    × (length (route json to_f32 plain_msg world).events ≡ 1)
    × (length (route json to_f32 receiver_msg world).events ≡ 1)
unfolding routing
route_tests = (refl, refl, refl, refl, refl, refl, refl, refl)

route-AnswersOne_example :
    let u = (route json to_f32 media_msg world).tracker in
    (u ≡ world.tracker)
    ⊎ ((payload : Json) × (n : ℕ) × (c : ℕ) × (parsed json to_f32 media_msg ≡ some payload)
        × AnswersOne json to_f32 payload world.tracker u n c)
route-AnswersOne_example = route-AnswersOne json to_f32 media_msg world

answer_msg-IsCustom : IsCustom answer_msg.namespace
unfolding routing
answer_msg-IsCustom = ((λ e. cc), (λ e. cc), (λ e. cc), (λ e. cc))

route-custom_lost_example : route json to_f32 answer_msg world ≡ world
unfolding routing
route-custom_lost_example =
    route-custom_lost json to_f32 answer_msg world custom_answer 9 refl refl (omega arith)
      answer_msg-IsCustom refl

route_all-IsInStep_example :
    IsInStep (route_all json to_f32 (media_msg ∷ receiver_msg ∷ ping_msg ∷ []) world)
route_all-IsInStep_example =
    route_all-IsInStep json to_f32 (media_msg ∷ receiver_msg ∷ ping_msg ∷ []) world
      record { media_told = refl; receiver_told = refl; session_told = refl }

route-Adds_example : Adds (route json to_f32 media_msg world).events world.events
route-Adds_example = route-Adds json to_f32 media_msg world

abbrev beating : Pulse
beating = record { alive = true; connection = ConnectionState.connected; events = []; pings = 0 }

-- The device is heard at 100, and the ticker ticks every 5, from 105 on.
heartbeat_task-EndsInTime_example :
    EndsInTime 15 5 100 105 3 1 beating
      (heartbeat_task 15 (tick true 5 ∷ [] ++ rounds_of 100 (silence 5 105 4)) beating)
heartbeat_task-EndsInTime_example =
    heartbeat_task-EndsInTime 15 5 100 105 3 (tick true 5 ∷ []) beating ((refl, omega arith), tt)
      (omega arith) (omega arith)
