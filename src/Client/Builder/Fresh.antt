-- ===== src/Client/Builder/Fresh.antt =====
-- What a client is when it has been built.
use oxicast.Common.{
  ℕ, ◌%◌, ◌^◌, ◌≡◌, ◌≢◌, refl, ◌∙◌, ap, sym, subst, ◌↔◌, inl, inr, Bool, true, false, none, some,
  List, [], ◌∷◌, ◌==◌, Bool-cases, arith,
}
use oxicast.Types.{F64, F32}
use oxicast.Event.{ConnectionState}
use oxicast.Error.{Result, ok, err}
use oxicast.Message.{CastMessage}
use oxicast.Serde.{SerdeJson}
use oxicast.State.{new_state}
use oxicast.Tracker
use oxicast.Router.{World, route}
use oxicast.Router.Correlation.{route-AnswersOne}
use oxicast.Router.InStep.{IsInStep, pass_all-IsInStep}
use oxicast.Router.Traffic.{Traffic, reads, beats, pass_all}
use oxicast.Client.State.{Client}
use oxicast.Client.Calls.Kept.Table.{none_ne_some}
use oxicast.Client.Life.{
  connected_life, Life, Action, step, run, reader_exit, writer_exit, heartbeat_exit,
}
use oxicast.Client.Life.Alive.{
  overtakes, IsTruthful, NoneOvertakes, run-IsTruthful, step-IsTruthful,
}
use oxicast.Client.Life.Retry.{on_change, on_change-connected}
use oxicast.Client.Builder.{
  CastClientBuilder, Connected, Exit, reader, writer, heartbeat, action_of, exit_all, spawned_life,
  announce, connected_client, from_builder, fresh_world,
}

none_overtakes : (e : Exit) (s : Life) → overtakes (action_of e) s ≡ false
none_overtakes (reader why) s = refl
none_overtakes writer s = refl
none_overtakes heartbeat s = refl

exit_all-IsTruthful : (exits : List Exit) (s : Life) → IsTruthful s → IsTruthful (exit_all exits s)
unfolding exit_all
exit_all-IsTruthful [] s h = h
exit_all-IsTruthful (e ∷ exits) s h =
    exit_all-IsTruthful exits (step (action_of e) s)
      (step-IsTruthful (action_of e) s (none_overtakes e s) h)

step-dead : (e : Exit) (s : Life) → s.alive ≡ false → (step (action_of e) s).alive ≡ false
unfolding step reader_exit writer_exit heartbeat_exit
step-dead (reader why) s h = ground arith
step-dead writer s h = ground arith
step-dead heartbeat s h = ground arith

exit_all-dead : (exits : List Exit) (s : Life) → s.alive ≡ false → (exit_all exits s).alive ≡ false
unfolding exit_all
exit_all-dead [] s h = h
exit_all-dead (e ∷ exits) s h = exit_all-dead exits (step (action_of e) s) (step-dead e s h)

-- Each task runs at first, so that its exit counts.
first_exit : (e : Exit) → (step (action_of e) spawned_life).alive ≡ false
unfolding step reader_exit writer_exit heartbeat_exit
first_exit (reader why) = refl
first_exit writer = refl
first_exit heartbeat = refl

-- The flag that ends the auto-reconnect task is not touched.
step-shutting_down : (e : Exit) (s : Life) → (step (action_of e) s).shutting_down ≡ s.shutting_down
unfolding step reader_exit writer_exit heartbeat_exit
step-shutting_down (reader why) s = ground arith
step-shutting_down writer s = ground arith
step-shutting_down heartbeat s = ground arith

exit_all-shutting_down :
    (exits : List Exit) (s : Life) → (exit_all exits s).shutting_down ≡ s.shutting_down
unfolding exit_all
exit_all-shutting_down [] s = refl
exit_all-shutting_down (e ∷ exits) s =
    exit_all-shutting_down exits (step (action_of e) s) ∙ step-shutting_down e s

announce-IsTruthful : (s : Life) → IsTruthful s → IsTruthful (announce s)
announce-IsTruthful s v = record {
  tasks_run = ground (arith, v.tasks_run);
  dead_before_stop = ground (arith, v.dead_before_stop);
}

announce-same :
    (s : Life)
    → ((announce s).alive ≡ s.alive)
      × ((announce s).shutting_down ≡ s.shutting_down)
      × ((announce s).connection ≡ ConnectionState.connected)
announce-same s = ground arith

abbrev built_life : List Exit → Life
built_life exits = announce (exit_all exits spawned_life)

-- If no task ends so early, the client starts in the state where its life is said to.
built_life-nil : built_life [] ≡ connected_life
unfolding exit_all
built_life-nil = refl

built_life-lost : (exits : List Exit) → exits ≢ [] → (built_life exits).alive ≡ false
unfolding exit_all
built_life-lost [] h = absurd (h refl)
built_life-lost (e ∷ exits) h =
    (announce-same (exit_all exits (step (action_of e) spawned_life))).0
    ∙ exit_all-dead exits (step (action_of e) spawned_life) (first_exit e)

true-ne-false : true ≢ false
true-ne-false h = cc

built_life-alive_iff : (exits : List Exit) → ((built_life exits).alive ≡ true) ↔ (exits ≡ [])
unfolding exit_all
built_life-alive_iff [] = (λ h. refl, λ h. refl)
built_life-alive_iff (e ∷ exits) =
    (λ h. absurd (true-ne-false (sym h ∙ built_life-lost (e ∷ exits) (λ q. cc))), λ q. cc)

built_life-IsTruthful : (exits : List Exit) → IsTruthful (built_life exits)
built_life-IsTruthful exits = announce-IsTruthful (exit_all exits spawned_life) (
    exit_all-IsTruthful exits spawned_life
      (record { tasks_run = inr (inr (refl, refl, refl)); dead_before_stop = inl refl }))

module _ (j : SerdeJson) (to_f32 : F64 → F32) where
  from_builder-ok :
      (tls : Result (Unit {0})) (accepted : Bool) (exits : List Exit) (meanwhile : List Traffic)
      (b : CastClientBuilder) (x : Connected j.Value)
      → from_builder j to_f32 tls accepted exits meanwhile b ≡ some (ok x)
      → connected_client j to_f32 b exits meanwhile ≡ x
  unfolding from_builder
  from_builder-ok (err e) accepted exits meanwhile b x h = absurd (ground arith)
  from_builder-ok (ok u) accepted exits meanwhile b x h =
      elim (Bool-cases (b.event_buffer_size == 0)) [
        | inl e ↦ absurd (ground arith)
        | inr e ↦ ground arith
      ]

  -- With nothing pending there is no request to answer.
  route-idle :
      (m : CastMessage) (w : World j.Value)
      → w.tracker ≡ Tracker.new
      → (route j to_f32 m w).tracker ≡ Tracker.new
  unfolding Tracker.new Tracker.get
  route-idle m w e = elim (route-AnswersOne j to_f32 m w) [
    | inl same ↦ same ∙ e
    | inr (json, n, c, payload, one) ↦ absurd (
        none_ne_some (
          sym (ap (λ (t : Tracker.Tracker j.Value). Tracker.get (n % 2 ^ 32) t.pending) e)
          ∙ one.waited))
  ]

  pass_all-idle :
      (traffic : List Traffic) (w : World j.Value)
      → w.tracker ≡ Tracker.new
      → (pass_all j to_f32 traffic w).tracker ≡ Tracker.new
  unfolding pass_all
  pass_all-idle [] w e = e
  pass_all-idle (reads m ∷ more) w e = pass_all-idle more (route j to_f32 m w) (route-idle m w e)
  pass_all-idle (beats ∷ more) w e = pass_all-idle more _ e

  -- No application is launched, no request was made or answered, and the watch channels and the
  -- tracked session are what the newest events say.
  pub record IsNew (c : Client j.Value) : Type 0 where
    pub no_transport : c.transport_id ≡ none
    pub no_session : c.session_id ≡ none
    pub no_requests : c.tracker ≡ Tracker.new
    pub in_step : IsInStep c.world

  built-IsNew :
      (b : CastClientBuilder) (exits : List Exit) (meanwhile : List Traffic)
      → IsNew (connected_client j to_f32 b exits meanwhile).client
  unfolding new_state
  built-IsNew b exits meanwhile = record {
    no_transport = refl;
    no_session = refl;
    no_requests = pass_all-idle meanwhile (fresh_world j to_f32) refl;
    in_step =
        pass_all-IsInStep j to_f32 meanwhile (fresh_world j to_f32)
          record { media_told = refl; receiver_told = refl; session_told = refl };
  }

  -- A client that `from_builder` returns has no application and no request, whatever messages came
  -- in meanwhile, and its watch channels and tracked session are what the newest events say, with
  -- no session before any event. It is alive exactly if none of its tasks has ended, and while
  -- `alive` is set later all tasks run or are about to: whatever happens next, as long as no
  -- reconnect overtakes a disconnect.
  pub from_builder-IsTruthful :
      (tls : Result (Unit {0})) (accepted : Bool) (exits : List Exit) (meanwhile : List Traffic)
      (b : CastClientBuilder) (x : Connected j.Value) (actions : List Action)
      → from_builder j to_f32 tls accepted exits meanwhile b ≡ some (ok x)
      → NoneOvertakes actions x.life
      → IsNew x.client × IsTruthful (run actions x.life) × ((x.life.alive ≡ true) ↔ (exits ≡ []))
  from_builder-IsTruthful tls accepted exits meanwhile b x actions h n =
      let same = from_builder-ok tls accepted exits meanwhile b x h in
      (
        subst (λ (y : Connected j.Value). IsNew y.client) same (built-IsNew b exits meanwhile),
        run-IsTruthful actions x.life n (
            subst (λ (y : Connected j.Value). IsTruthful y.life) same
              (built_life-IsTruthful exits)),
        subst (λ (y : Connected j.Value). (y.life.alive ≡ true) ↔ (exits ≡ [])) same
            (built_life-alive_iff exits),
      )

  -- When a task ends before `from_builder` announces the connection, the client returned is not
  -- alive, but its state says connected, and that state does not make the auto-reconnect task
  -- reconnect.
  pub from_builder-lost :
      (tls : Result (Unit {0})) (accepted : Bool) (exits : List Exit) (meanwhile : List Traffic)
      (b : CastClientBuilder) (x : Connected j.Value) (reconnect : ℕ → Life → Bool × Life)
      → from_builder j to_f32 tls accepted exits meanwhile b ≡ some (ok x)
      → exits ≢ []
      → (x.life.alive ≡ false)
        × (x.life.connection ≡ ConnectionState.connected)
        × (on_change x.config.max_reconnect_attempts true reconnect x.life ≡ (true, x.life))
  from_builder-lost tls accepted exits meanwhile b x reconnect h lost =
      let same =
        ap (λ (y : Connected j.Value). y.life)
          (from_builder-ok tls accepted exits meanwhile b x h) in
      let announced = announce-same (exit_all exits spawned_life) in
      let connected = ap (λ (s : Life). s.connection) (sym same) ∙ announced.2 in
      (
        ap (λ (s : Life). s.alive) (sym same) ∙ built_life-lost exits lost,
        connected,
        on_change-connected x.config.max_reconnect_attempts reconnect x.life
            (ap (λ (s : Life). s.shutting_down) (sym same)
              ∙ announced.1
              ∙ exit_all-shutting_down exits spawned_life)
            connected,
      )
