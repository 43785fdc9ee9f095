-- ===== src/Client/Receiver.antt =====
-- The receiver commands of src/client.rs: `receiver_status`, `launch_app`, `stop_app`, `set_volume`
-- and `set_muted`.
use Prim.Native.String.{◌++◌ as concat}
use oxicast.Common.{
  String, Bool, Option, none, some, List, [], ◌∷◌, if◌then◌else◌, str_eq, option_map, and_then,
}
use oxicast.Common.Int.{ℤ}
use oxicast.Types.{F64, F32, f32_clamp_unit, Volume, Application, ReceiverStatus, CastApp, app_id}
use oxicast.Error.{Result, ok, err, ok_or, internal, launch_failed}
use oxicast.Event.{CastEvent, as_receiver_status}
use oxicast.Serde.{SerdeJson}
use oxicast.Channel.Receiver
use oxicast.Channel.Connection.{connect_msg}
use oxicast.Router.Parse.Receiver.{parse_receiver_status}
use oxicast.Client.State.{Command, ◌>>=◌, ◌>>◌, lift, modify, send}
use oxicast.Router.Traffic.{Traffic}
use oxicast.Client.Request.{Reply, request, tasks_run}
use oxicast.Client.Device.{check_device_error}

-- `applications.iter().find(|a| a.app_id == target_id)`.
unfoldable pub find_app : String → List Application → Option Application
find_app target [] = none
find_app target (a ∷ apps) = if str_eq a.app_id target then some a else find_app target apps

-- The application, in an event that is a receiver status.
abbrev pub listed : String → Option CastEvent → Option Application
listed target event =
    and_then (and_then event as_receiver_status) λ s. find_app target s.applications

module _ (j : SerdeJson) (to_f32 : F64 → F32) (show_i64 : ℤ → String) where
  open j use {Value}

  unfoldable pub receiver_status : Reply Value → Command Value ReceiverStatus
  receiver_status reply = do
    json ← request j to_f32 (Receiver.get_status j) reply
    lift (check_device_error j show_i64 json)
    lift (ok_or (parse_receiver_status j to_f32 json) (internal "failed to parse receiver status"))

  -- The application is there: connect to it, and remember its transport and session.
  unfoldable pub adopt_app : Application → (accepted : Bool) → Command Value Application
  adopt_app app accepted = do
    send (connect_msg j app.transport_id) accepted
    modify λ c. record c { transport_id = some app.transport_id; session_id = some app.session_id }
    lift (ok app)

  -- A round of the loop: what the tasks do, and then what `next_event` gives
  -- within its three seconds, if anything. The rounds are those before the deadline.
  abbrev pub Round : Type 0
  Round = List Traffic × Option CastEvent

  -- A status that lists the application ends the wait.
  unfoldable pub await_app : String → (accepted : Bool) → List Round → Command Value Application
  await_app target accepted [] =
      lift (err (launch_failed (concat "app " (concat target " not found after launch (timeout)"))))
  await_app target accepted ((traffic, event) ∷ rounds) =
      let rest = await_app target accepted rounds in
      modify (tasks_run j to_f32 traffic)
      >> elim (listed target event) [ none ↦ rest | some app ↦ adopt_app app accepted ]

  abbrev pub adopt_or_await :
      String → (accepted : Bool) → List Round → Option Application → Command Value Application
  adopt_or_await target accepted rounds (some app) = adopt_app app accepted
  adopt_or_await target accepted rounds none = await_app target accepted rounds

  -- `connected` says whether the write channel takes the CONNECT to the application.
  unfoldable pub launch_app :
      CastApp → Reply Value → (connected : Bool) → List Round → Command Value Application
  launch_app app reply connected rounds = do
    json ← request j to_f32 (λ id. Receiver.launch_app j id (app_id app)) reply
    lift (check_device_error j show_i64 json)
    adopt_or_await (app_id app) connected rounds
        (and_then (parse_receiver_status j to_f32 json) λ s. find_app (app_id app) s.applications)

  unfoldable pub stop_app : (session_id : String) → Reply Value → Command Value (Unit {0})
  stop_app session_id reply = do
    json ← request j to_f32 (λ id. Receiver.stop_app j id session_id) reply
    lift (check_device_error j show_i64 json)
    modify λ c. record c { transport_id = none; session_id = none }

  abbrev pub volume_of : Value → Result Volume
  volume_of json =
      ok_or (option_map (λ (s : ReceiverStatus). s.volume) (parse_receiver_status j to_f32 json))
        (internal "failed to parse volume from response")

  unfoldable pub set_volume : (level : F32) → Reply Value → Command Value Volume
  set_volume level reply = do
    json ←
        request j to_f32 (λ id. Receiver.set_volume j id (some (f32_clamp_unit level)) none) reply
    lift (check_device_error j show_i64 json)
    lift (volume_of json)

  unfoldable pub set_muted : (muted : Bool) → Reply Value → Command Value Volume
  set_muted muted reply = do
    json ← request j to_f32 (λ id. Receiver.set_volume j id none (some muted)) reply
    lift (check_device_error j show_i64 json)
    lift (volume_of json)
