-- ===== src/Tests/Client/Lifecycle.antt =====
-- Runs of `disconnect` and `reconnect`.
use oxicast.Common.{ℕ, ◌≡◌, refl, Bool, true, false, none, some, List, [], ◌∷◌, ◌++◌}
use oxicast.Event.{ConnectionState}
use oxicast.Error.{ok, err, disconnected}
use oxicast.Tracker.{next_id}
use oxicast.Channel.Connection.{close_msg}
use oxicast.Channel.Media
use oxicast.Client.State.{Client}
use oxicast.Client.Life.{
  Life, is_connected, connection_state, Action, reconnect_begins, reader_fails, disconnect_begins,
  disconnect_kills, disconnect_ends, step, run, reader_exit, writer_exit, begin_disconnect, kill,
  end_disconnect, begin_reconnect, after_handshake, store_flags, spawn_tasks, commit,
  connected_life,
}
use oxicast.Client.Life.Ended.{HasEnded}
use oxicast.Client.Life.Recovery.{IsLost, IsRecovered}
use oxicast.Client.Life.Retry.{on_change}
use oxicast.Client.Lifecycle.{
  Whole, finishes, cut_at_answer, Handshake, established, drop_pending, farewell, disconnect,
  reopen, after_shake, reconnect_with_attempt, reconnect,
}
use oxicast.Router.Traffic.{reads, beats, heartbeats}
use oxicast.Client.Lifecycle.Disconnect.{disconnect_lem, disconnect-written}
use oxicast.Client.Lifecycle.Reconnect.{reopened, reconnect-IsBack, reconnect-lost}
use oxicast.Client.Lifecycle.Overruled.{Overruled, reconnect-Overruled}
use oxicast.Tests.Base.{json, to_f32, show_i64, media_client, app_client, ping_msg, plain_msg}
use oxicast.Tests.Client.{commands, playing_reply}

cycle : Unit {0}
unfolding commands step run reader_exit writer_exit begin_disconnect kill end_disconnect
    begin_reconnect after_handshake store_flags spawn_tasks commit on_change drop_pending farewell
    disconnect reopen after_shake reconnect_with_attempt
cycle = tt

abbrev playing_whole : Whole json.Value
playing_whole = record { client = media_client; life = connected_life }

abbrev down : Whole json.Value
down = record {
  client = app_client;
  life = record connected_life {
    alive = false;
    reader = false;
    writer = false;
    heartbeat = false;
    connection = ConnectionState.disconnected;
  };
}

down-IsLost : IsLost down.life
down-IsLost = record { not_flagged = refl; dead = refl; at_rest = refl; listening = refl }

cycle_tests :
    ((disconnect json to_f32 show_i64
        (cut_at_answer (reads ping_msg ∷ []))
        []
        []
        []
        playing_whole).0
      ≡ ok tt)
    × ((reconnect json (established false true []) [] down).0 ≡ err disconnected)
    × (reconnect json (established true true []) [] playing_whole ≡ (ok tt, playing_whole))
unfolding cycle
cycle_tests = (refl, refl, refl)

abbrev again_down : List Action
again_down = reconnect_begins 1 ∷ disconnect_begins ∷ []

disconnect_lem_example :
    let (result, after) =
      disconnect json to_f32 show_i64
        (cut_at_answer (reads ping_msg ∷ []))
        (reader_fails none ∷ [])
        []
        (reads plain_msg ∷ [])
        playing_whole in
    (result ≡ ok tt)
    × HasEnded (run again_down after.life)
    × ((run again_down after.life).events ≡ after.life.events)
    × (after.client.tracker.pending ≡ [])
    × (after.client.transport_id ≡ some "t1")
    × (after.client.session_id ≡ some "s1")
    × ((attempt : ℕ) (h : Handshake) (during : List Action) (c : Client json.Value)
        → let v : Whole json.Value = record { client = c; life = run again_down after.life } in
          reconnect_with_attempt json attempt h during v ≡ (err disconnected, v))
disconnect_lem_example =
    disconnect_lem json to_f32 show_i64 (cut_at_answer (reads ping_msg ∷ []))
      (reader_fails none ∷ []) [] again_down (reads plain_msg ∷ []) playing_whole refl

disconnect-written_example :
    (disconnect json to_f32 show_i64
      (finishes playing_reply true)
      []
      []
      (reads ping_msg ∷ beats ∷ [])
      playing_whole).1.client.written
    ≡ heartbeats json (reads ping_msg ∷ beats ∷ [])
      ++ (close_msg json "receiver-0" ∷ heartbeats json playing_reply.meanwhile
          ++ (Media.stop json (next_id 7) "t1" media_client.state.media_session_id ∷ []))
disconnect-written_example =
    disconnect-written json to_f32 show_i64 "t1" playing_reply [] [] (reads ping_msg ∷ beats ∷ [])
      playing_whole refl refl refl

reconnect-IsBack_example :
    let (result, after) = reconnect_with_attempt json 1 (established true true []) [] down in
    (result ≡ ok tt) × (after.client ≡ reopened json app_client) × IsRecovered after.life
reconnect-IsBack_example = reconnect-IsBack json 1 down down-IsLost

abbrev again : ℕ → Life → Bool × Life
again attempt s = (false, s)

abbrev early_end : Handshake
early_end = established true true (reader_fails (some "reset") ∷ [])

reconnect-lost_example :
    let (result, after) = reconnect_with_attempt json 2 early_end [] down in
    (result ≡ ok tt)
    × (is_connected after.life ≡ false)
    × (connection_state after.life ≡ ConnectionState.connected)
    × (on_change 5 true again after.life ≡ (true, after.life))
reconnect-lost_example = reconnect-lost json 2 5 (some "reset") again down down-IsLost

reconnect-Overruled_example : Overruled json (established true true []) app_client (
    reconnect_with_attempt json 1
      (established true true [])
      ([] ++ disconnect_begins ∷ disconnect_kills ∷ disconnect_ends ∷ [])
      down)
reconnect-Overruled_example =
    reconnect-Overruled json 1 (established true true []) []
      (disconnect_kills ∷ disconnect_ends ∷ []) down down-IsLost tt (refl, (refl, tt))
