-- ===== src/Client/Lifecycle/Disconnect.antt =====
-- What `disconnect` of src/client.rs does, whatever happens meanwhile.
use oxicast.Common.{
  ℕ, String, Bool, true, false, Option, none, some, List, [], ◌∷◌, ◌++◌, ◌≡◌, refl, ◌∙◌, ap, arith,
}
use oxicast.Common.Int.{ℤ, is_positive}
use oxicast.Types.{F64, F32}
use oxicast.Error.{Result, ok, err, disconnected}
use oxicast.Message.{CastMessage}
use oxicast.Serde.{SerdeJson}
use oxicast.Tracker.{next_id, clear}
use oxicast.Channel.Connection.{close_msg}
use oxicast.Channel.Media
use oxicast.Router.Traffic.{Traffic, heartbeats, pass_all-written}
use oxicast.Client.State.{Client, send, get_transport_id, get_media_session_id}
use oxicast.Client.Request.{Reply, request, register_request, wait}
use oxicast.Client.Laws.Requests.{request-wait, wait-written}
use oxicast.Client.Playback.{stop_media}
use oxicast.Client.Life.{Action, run}
use oxicast.Client.Life.Ended.{HasEnded, is_past, run-HasEnded, run-disconnect}
use oxicast.Client.Lifecycle.{
  Whole, Handshake, reconnect_with_attempt, Farewell, finishes, cut_at_stop, cut_at_answer,
  cut_at_close, farewell, disconnect, drop_pending, prepare_stop, ask_stop,
}

reconnect-refused :
    (j : SerdeJson) (attempt : ℕ) (h : Handshake) (during : List Action) (w : Whole j.Value)
    → w.life.shutting_down ≡ true
    → reconnect_with_attempt j attempt h during w ≡ (err disconnected, w)
unfolding reconnect_with_attempt
reconnect-refused j attempt h during w e = simp e refl

-- The ids of the application are no part of the world, and stay as they are.
abbrev app_ids : {V : Type 0} → Client V → Option String × Option String
app_ids c = (c.transport_id, c.session_id)

module _ (j : SerdeJson) (to_f32 : F64 → F32) where
  send-app_ids :
      (msg : CastMessage) (taken : Bool) (c : Client j.Value)
      → app_ids (send msg taken c).1 ≡ app_ids c
  unfolding send
  send-app_ids msg true c = refl
  send-app_ids msg false c = refl

  request-app_ids :
      (build : ℕ → CastMessage) (reply : Reply j.Value) (c : Client j.Value)
      → app_ids (request j to_f32 build reply c).1 ≡ app_ids c
  unfolding request wait register_request send
  request-app_ids build reply c = ground arith

  module _ (show_i64 : ℤ → String) where
    stop_at-app_ids :
        (o : Option String) (reply : Reply j.Value) (c : Client j.Value)
        → c.transport_id ≡ o
        → app_ids (stop_media j to_f32 show_i64 reply c).1 ≡ app_ids c
    unfolding get_transport_id get_media_session_id stop_media
    stop_at-app_ids none reply c e = ground arith
    stop_at-app_ids (some t) reply c e =
        ground (arith, request-app_ids (λ id. Media.stop j id t c.state.media_session_id) reply c)

    stop_media-app_ids :
        (reply : Reply j.Value) (c : Client j.Value)
        → app_ids (stop_media j to_f32 show_i64 reply c).1 ≡ app_ids c
    stop_media-app_ids reply c = stop_at-app_ids c.transport_id reply c refl

    prepare_stop-app_ids :
        (c : Client j.Value) → app_ids (prepare_stop j to_f32 show_i64 c).1 ≡ app_ids c
    unfolding get_transport_id get_media_session_id register_request
    prepare_stop-app_ids c = ground arith

    ask_stop-app_ids : (c : Client j.Value) → app_ids (ask_stop j to_f32 show_i64 c).1 ≡ app_ids c
    unfolding get_transport_id get_media_session_id register_request send
    ask_stop-app_ids c = ground arith

    farewell-app_ids :
        (f : Farewell j.Value) (c : Client j.Value)
        → app_ids (farewell j to_f32 show_i64 f c) ≡ app_ids c
    unfolding farewell
    farewell-app_ids (finishes reply taken) c =
        send-app_ids (close_msg j "receiver-0") taken (stop_media j to_f32 show_i64 reply c).1
        ∙ stop_media-app_ids reply c
    farewell-app_ids (cut_at_stop meanwhile) c = prepare_stop-app_ids c
    farewell-app_ids (cut_at_answer meanwhile) c = ask_stop-app_ids c
    farewell-app_ids (cut_at_close reply) c = stop_media-app_ids reply c

    -- A `disconnect` that begins with no reconnect past its second test returns `Ok`, whatever
    -- other calls of it are under way, however its wait for STOP and CLOSE ends, and whatever
    -- happens meanwhile. Nothing is pending then, the ids of the application are as they were, and
    -- the client has ended for good: whatever happens afterwards it stays shut down and not alive,
    -- with no task, its event channel closed and no further event shown, and a reconnect fails with
    -- `Disconnected` and changes nothing.
    pub disconnect_lem :
        (f : Farewell j.Value) (before between afterwards : List Action) (late : List Traffic)
        (w : Whole j.Value)
        → is_past w.life ≡ false
        → let (result, after) = disconnect j to_f32 show_i64 f before between late w in
          (result ≡ ok tt)
          × HasEnded (run afterwards after.life)
          × ((run afterwards after.life).events ≡ after.life.events)
          × (after.client.tracker.pending ≡ [])
          × (after.client.transport_id ≡ w.client.transport_id)
          × (after.client.session_id ≡ w.client.session_id)
          × ((attempt : ℕ) (h : Handshake) (during : List Action) (c : Client j.Value)
              → let v : Whole j.Value = record { client = c; life = run afterwards after.life } in
                reconnect_with_attempt j attempt h during v ≡ (err disconnected, v))
    unfolding disconnect drop_pending clear
    disconnect_lem f before between afterwards late w h =
        let ids = farewell-app_ids f w.client in
        let (ended, quiet) =
          run-HasEnded afterwards _ (run-disconnect before between [] w.life h) in
        (
          refl,
          ended,
          quiet,
          refl,
          ap (λ p. p.0) ids,
          ap (λ p. p.1) ids,
          λ attempt shake during c. reconnect-refused j attempt shake during _ ended.flagged,
        )

    written_by_stop :
        (t : String) (reply : Reply j.Value) (c : Client j.Value)
        → c.transport_id ≡ some t
        → is_positive c.state.media_session_id ≡ true
        → let m = request j to_f32 (λ id. Media.stop j id t c.state.media_session_id) reply in
          (stop_media j to_f32 show_i64 reply c).1.written ≡ (m c).1.written
    unfolding get_transport_id get_media_session_id stop_media
    written_by_stop t reply c e p = ground arith

    -- With an application and a positive media session id, and with both messages taken, a
    -- `disconnect` whose wait ends in time sends STOP for that session and then CLOSE; besides, if
    -- no other clone of the client is at work, only what the tasks send of themselves is sent
    -- meanwhile: PONGs for the PINGs that the reader reads, and the heartbeat's PINGs.
    pub disconnect-written :
        (t : String) (reply : Reply j.Value) (before between : List Action) (late : List Traffic)
        (w : Whole j.Value)
        → w.client.transport_id ≡ some t
        → is_positive w.client.state.media_session_id ≡ true
        → reply.accepted ≡ true
        → let c = w.client in
          let stop = Media.stop j (next_id c.tracker.counter) t c.state.media_session_id in
          (disconnect j to_f32 show_i64
            (finishes reply true)
            before
            between
            late
            w).1.client.written
          ≡ heartbeats j late
            ++ (close_msg j "receiver-0" ∷ heartbeats j reply.meanwhile ++ (stop ∷ c.written))
    unfolding disconnect farewell drop_pending clear send
    disconnect-written t reply before between late w e p a =
        let c = w.client in
        let stop = λ (id : ℕ). Media.stop j id t c.state.media_session_id in
        let close = close_msg j "receiver-0" in
        pass_all-written j to_f32 late _
        ∙ ap (λ ws. heartbeats j late ++ (close ∷ ws))
            (written_by_stop t reply c e p
              ∙ ap (λ (r : Result j.Value × Client j.Value). r.1.written)
                  (request-wait j to_f32 stop c reply a)
              ∙ wait-written j to_f32 (next_id c.tracker.counter) reply.outcome _
              ∙ pass_all-written j to_f32 reply.meanwhile _)
