-- ===== src/Client/Laws/Answered.antt =====
-- A request and the messages that the reader routes while it waits.
use oxicast.Common.{ℕ, ◌<◌, ◌≡◌, ap, ◌∙◌, true, some, List, ◌∷◌, ◌++◌, All, inl, inr}
use oxicast.Common.Int.{as_u32}
use oxicast.Types.{F64, F32}
use oxicast.Message.{CastMessage}
use oxicast.Serde.{SerdeJson}
use oxicast.Tracker.{Tracker, Outcome, wait_for, get, next_id}
use oxicast.Tracker.Laws.{register-get, wait_for_lem}
use oxicast.Router.Dispatch.{parsed}
use oxicast.Router.Parse.Fields.{get_u64}
use oxicast.Router.Delivery.{IsCorrelated}
use oxicast.Router.Answered.{Asks, IsTold, pass_all-IsTold}
use oxicast.Router.Traffic.{Traffic, reads}
use oxicast.Client.State.{Client}
use oxicast.Client.Request.{Reply, request, wait}
use oxicast.Client.Laws.Requests.{sent_client, request-wait}

wait_for-sent :
    {V : Type 0} (limit id : ℕ) (o : Outcome V) (t : Tracker V)
    → (wait_for limit id o t).1.sent ≡ t.sent
wait_for-sent limit id o t = elim (wait_for_lem limit id o t) [
  | inl (v, got, result, same) ↦ ap (λ (u : Tracker _). u.sent) same
  | inr (failed, same, others) ↦ same
]

module _ (j : SerdeJson) (to_f32 : F64 → F32) (build : ℕ → CastMessage) (c : Client j.Value) where
  -- While a request that the write channel took waits, the first message that names its id, a
  -- positive number read modulo 2^32, puts its payload on the request's own channel, whatever the
  -- tasks do before and after it: if the message is one of the receiver namespace, or of the media
  -- namespace with a type that the router knows, or of a custom namespace.
  pub request-IsTold :
      (reply : Reply j.Value) (before after : List Traffic) (m : CastMessage) (n : ℕ)
      (json : j.Value)
      → reply.accepted ≡ true
      → reply.meanwhile ≡ before ++ reads m ∷ after
      → as_u32 n ≡ next_id c.tracker.counter
      → All (λ x. ¬ Asks j to_f32 x (as_u32 n)) before
      → parsed j to_f32 m ≡ some json
      → get_u64 j json "requestId" ≡ some n
      → 0 < n
      → IsCorrelated j to_f32 m.namespace json
      → IsTold j to_f32 (request j to_f32 build reply c).1.tracker c.tracker.channels json
  unfolding wait
  request-IsTold reply before after m n json taken routed same others reads_json names positive
        correlated =
      let id = next_id c.tracker.counter in
      let sent = sent_client j to_f32 build c in
      let waits = ap (λ i. get i sent.tracker.pending) same ∙ register-get c.tracker in
      let (newer, older, e) =
        pass_all-IsTold j to_f32 before after m sent.world c.tracker.channels n json waits others
          reads_json names positive correlated in
      rw (request-wait j to_f32 build c reply taken, routed)
        (newer, older, wait_for-sent c.request_timeout id reply.outcome _ ∙ e)
