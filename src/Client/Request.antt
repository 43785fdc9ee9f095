-- ===== src/Client/Request.antt =====
-- The part that the requests of src/client.rs share: register, send, wait. What happens elsewhere
-- during the wait is a `Reply`: whether the write channel took the request, what the tasks did
-- meanwhile, and how the wait ended. What the tasks do between two parts of the command that do not
-- wait counts as done before the command, or within its wait.
use oxicast.Common.{ℕ, Bool, List}
use oxicast.Types.{F64, F32}
use oxicast.Error.{ok}
use oxicast.Message.{CastMessage}
use oxicast.Serde.{SerdeJson}
use oxicast.Tracker.{Outcome, register, wait_for}
use oxicast.Router.Traffic.{Traffic, pass_all}
use oxicast.Client.State.{Client, Command, ◌>>=◌, ◌>>◌, modify, send}

pub record Reply (V : Type 0) : Type 0 where
  pub accepted : Bool
  pub meanwhile : List Traffic
  pub outcome : Outcome V

module _ (j : SerdeJson) (to_f32 : F64 → F32) where
  open j use {Value}

  -- The id that the request is sent with; the channel stays with the waiting side.
  unfoldable pub register_request : Command Value ℕ
  register_request c =
      let (id, channel, t) = register c.tracker in
      (ok id, record c { world = record (c.world) { tracker = t } })

  abbrev pub tasks_run : List Traffic → Client Value → Client Value
  tasks_run traffic c = record c { world = pass_all j to_f32 traffic c.world }

  unfoldable pub wait : ℕ → Outcome Value → Command Value Value
  wait id outcome c =
      let (result, t) = wait_for c.request_timeout id outcome c.tracker in
      (result, record c { world = record (c.world) { tracker = t } })

  unfoldable pub request : (ℕ → CastMessage) → Reply Value → Command Value Value
  unfolding register_request wait
  request build reply = do
    id ← register_request
    send (build id) reply.accepted
    modify (tasks_run reply.meanwhile)
    wait id reply.outcome
