-- ===== src/Tests/Client/Calls.antt =====
-- Two commands at the same time: the second is answered first, and the first still waits.
use oxicast.Common.{◌<◌, ◌^◌, ◌≢◌, ℕ, ◌≡◌, refl, arith, inl, some}
use oxicast.Error.{ok}
use oxicast.Message.{CastMessage, build_message}
use oxicast.Tracker.{Outcome, elapsed, clear, register, received, sender_dropped, new}
use oxicast.Serde.{SerdeJson}
use oxicast.Serde.Instance.{Json, sample, obj, field, end, u64}
use oxicast.Channel.Receiver
use oxicast.Router.{route_custom}
use oxicast.Client.Calls.{
  Calls, set_tracker, began, waiting, abandoned, returned, Observes, registers, sends, routes,
  returns, steps, clears, Reach, ReachUncleared, start, later,
}
use oxicast.Client.Calls.Released.{moves, stays, cleared-Observes}
use oxicast.Router.Parse.Fields.{get_u64}
use oxicast.Client.Calls.Own.{Names, returned-Names}
use oxicast.Client.Calls.Kept.Table.{IsServed}
use oxicast.Client.Calls.Kept.{waiting-IsServed}
use oxicast.Tests.Base.{to_f32}
use oxicast.Tests.Client.{commands}

-- Every payload answers request 2.
abbrev answer : Json
answer = obj (field "requestId" (u64 2) end)

abbrev json : SerdeJson
json = sample (λ text. some answer)

abbrev message : CastMessage
message = build_message "urn:x-cast:app" "t1" "sender-0" "answer"

abbrev build : ℕ → CastMessage
build id = Receiver.get_status json id

abbrev Uncleared : Calls json.Value → Type 0
Uncleared s = ReachUncleared json to_f32 10 s

both_waiting :
    (s : Calls json.Value) × Uncleared s
    × (s.status 0 ≡ waiting 1)
    × (s.status 1 ≡ waiting 2)
    × (s.tracker.channels ≡ 2)
unfolding commands new
both_waiting = (
  _,
  later (later (later (later start registers) registers) (sends 1 2 build refl))
      (sends 0 1 build refl),
  refl,
  refl,
  refl,
)

first_waiting :
    (s : Calls json.Value) × Reach json to_f32 10 s
    × (s.status 1 ≡ returned 2 (ok answer))
    × (s.status 0 ≡ waiting 1)
unfolding commands new route_custom
first_waiting = (
  _,
  later
      (later
        (later
          (later
            (later (later (later start (steps registers)) (steps registers))
              (steps (sends 1 2 build refl)))
            (steps (sends 0 1 build refl)))
          (steps (routes message)))
        (steps (returns 1 2 (received answer) refl (inl (refl, refl)))))
      clears,
  refl,
  refl,
)

returned-Names_example :
    Names json to_f32 10 answer 2
    × ((n : ℕ) → get_u64 json answer "requestId" ≡ some n → n < 2 ^ 32 → n ≡ 2)
returned-Names_example = returned-Names json to_f32 10 1 2 answer first_waiting.1 first_waiting.2

waiting-IsServed_example :
    (both_waiting.0.status 0 ≡ waiting 1
      → IsServed both_waiting.0.tracker 0 1 × ¬ Observes both_waiting.0.tracker 0 sender_dropped)
    × (both_waiting.0.status 0 ≡ abandoned 1 → IsServed both_waiting.0.tracker 0 1)
unfolding both_waiting commands new
waiting-IsServed_example = waiting-IsServed json to_f32 10 0 1 both_waiting.1 (omega arith)

-- A third request is registered after the tracker has been cleared.
abbrev cleared : Calls json.Value
cleared = set_tracker (clear first_waiting.0.tracker) first_waiting.0

abbrev third : Calls json.Value
third = began (register cleared.tracker) cleared

cleared-Observes_example : (o : Outcome json.Value) × (o ≢ elapsed) × Observes third.tracker 0 o
cleared-Observes_example =
    cleared-Observes json to_f32 10 0 1 first_waiting.1 first_waiting.3
      (moves stays (steps registers))
