-- ===== src/Client/Laws/Requests.antt =====
-- How a request ends: sent with a fresh id, and its entry in the tracker.
use oxicast.Common.{
  ℕ, ◌<◌, ◌^◌, true, false, none, some, List, [], ◌∷◌, ◌++◌, ◌≡◌, refl, ap, ◌∙◌, arith, ◌+◌, inl,
  inr,
}
use oxicast.Types.{F64, F32}
use oxicast.Error.{Result, ok, err, disconnected, timeout}
use oxicast.Message.{CastMessage}
use oxicast.Serde.{SerdeJson}
use oxicast.Tracker.{
  Tracker, Outcome, wait_for, forget, received, sender_dropped, elapsed, get, register, next_id,
}
use oxicast.Tracker.Laws.{
  register-next_id, register-channels, register-get, wait_for-failed, wait_for-received,
}
use oxicast.Tracker.Ids.{next_id_bounds}
use oxicast.Router.{World, route}
use oxicast.Router.Correlation.{route-AnswersOne}
use oxicast.Router.Traffic.{Traffic, reads, beats, heartbeats, pass_all, pass_all-written}
use oxicast.Client.State.{Client, send}
use oxicast.Client.Request.{Reply, request, register_request, wait, tasks_run}

pub wait-written :
    (j : SerdeJson) (to_f32 : F64 → F32) (id : ℕ) (o : Outcome j.Value) (c : Client j.Value)
    → (wait j to_f32 id o c).1.written ≡ c.written
unfolding wait
wait-written j to_f32 id o c = ground arith

wait-channels :
    (j : SerdeJson) (to_f32 : F64 → F32) (id : ℕ) (o : Outcome j.Value) (c : Client j.Value)
    → (wait j to_f32 id o c).1.tracker.channels ≡ c.tracker.channels
unfolding wait wait_for forget
wait-channels j to_f32 id (received v) c = refl
wait-channels j to_f32 id sender_dropped c = refl
wait-channels j to_f32 id elapsed c = refl

-- The tasks register no request.
pass_all-channels :
    (j : SerdeJson) (to_f32 : F64 → F32) (traffic : List Traffic) (w : World j.Value)
    → (pass_all j to_f32 traffic w).tracker.channels ≡ w.tracker.channels
unfolding pass_all
pass_all-channels j to_f32 [] w = refl
pass_all-channels j to_f32 (beats ∷ more) w = pass_all-channels j to_f32 more _
pass_all-channels j to_f32 (reads m ∷ more) w =
    pass_all-channels j to_f32 more (route j to_f32 m w) ∙ elim (route-AnswersOne j to_f32 m w) [
      | inl same ↦ ap (λ (t : Tracker j.Value). t.channels) same
      | inr (json, n, c, payload, one) ↦ one.counted.1
    ]

module _ (j : SerdeJson) (to_f32 : F64 → F32) (build : ℕ → CastMessage) (c : Client j.Value) where
  -- The client when the request has been registered and sent.
  abbrev pub sent_client : Client j.Value
  sent_client = record c {
    world = record (c.world) {
      tracker = (register c.tracker).2;
      written = build (next_id c.tracker.counter) ∷ c.written;
    };
  }

  pub request-wait :
      (reply : Reply j.Value)
      → reply.accepted ≡ true
      → request j to_f32 build reply c
        ≡ wait j to_f32
            (next_id c.tracker.counter)
            reply.outcome
            (tasks_run j to_f32 reply.meanwhile sent_client)
  unfolding request register_request send wait
  request-wait reply e = rw (e, register-next_id c.tracker)

  -- A request whose message the write channel refuses fails with `Disconnected` and writes nothing;
  -- but its id stays pending.
  pub request-refused :
      (reply : Reply j.Value)
      → reply.accepted ≡ false
      → let (result, after) = request j to_f32 build reply c in
        (result ≡ err disconnected)
        × (after.written ≡ c.written)
        × (get (next_id c.tracker.counter) after.tracker.pending ≡ some c.tracker.channels)
  unfolding request register_request send
  request-refused reply e = rw e (refl, refl, register-get c.tracker)

  -- From a counter that is a `u32`, a request that the write channel takes gets one new channel and
  -- is sent once, with a positive `u32` id; besides it only the tasks' PINGs and PONGs are sent
  -- while it waits. It returns the response received; or, when its sender is dropped or the time is
  -- up, `Disconnected` or `Timeout`, with its id no longer pending.
  pub request-sent :
      (reply : Reply j.Value)
      → reply.accepted ≡ true
      → c.tracker.counter < 2 ^ 32
      → let id = next_id c.tracker.counter in
        let (result, after) = request j to_f32 build reply c in
        (0 < id)
        × (id < 2 ^ 32)
        × (after.written ≡ heartbeats j reply.meanwhile ++ (build id ∷ c.written))
        × (after.tracker.channels ≡ c.tracker.channels + 1)
        × ((v : j.Value) → reply.outcome ≡ received v → result ≡ ok v)
        × (reply.outcome ≡ sender_dropped
            → (result ≡ err disconnected) × (get id after.tracker.pending ≡ none))
        × (reply.outcome ≡ elapsed
            → (result ≡ err (timeout c.request_timeout)) × (get id after.tracker.pending ≡ none))
  unfolding wait
  request-sent reply e h =
      let id = next_id c.tracker.counter in
      let waiting = tasks_run j to_f32 reply.meanwhile sent_client in
      let (low, high) = next_id_bounds c.tracker.counter h in
      let (r₁, r₂, g₁, g₂) = wait_for-failed c.request_timeout id waiting.tracker in
      (
        low,
        high,
        ap (λ (r : Result j.Value × Client j.Value). r.1.written) (request-wait reply e)
            ∙ wait-written j to_f32 id reply.outcome waiting
            ∙ pass_all-written j to_f32 reply.meanwhile sent_client.world,
        ap (λ (r : Result j.Value × Client j.Value). r.1.tracker.channels) (request-wait reply e)
            ∙ wait-channels j to_f32 id reply.outcome waiting
            ∙ pass_all-channels j to_f32 reply.meanwhile sent_client.world
            ∙ register-channels c.tracker,
        (λ v o.
            rw (request-wait reply e, o, wait_for-received c.request_timeout id v waiting.tracker)),
        (λ o. rw (request-wait reply e, o) (r₁, g₁)),
        (λ o. rw (request-wait reply e, o) (r₂, g₂)),
      )
