-- ===== src/Client/Builder.antt =====
-- `CastClientBuilder` of src/client/builder.rs, and `CastClient::from_builder` of src/client.rs, which
-- gives a client in two views: the state that its commands work on, and the life of its connection. A
-- `Duration` is its number of nanoseconds. What the TLS handshake gives is a parameter.
pub mod Fresh
pub mod Defaults
use oxicast.Common.{
  ℕ, zero, ◌*◌, String, Bool, true, false, Option, none, some, List, [], ◌∷◌, ◌==◌, if◌then◌else◌,
}
use oxicast.Types.{F64, F32}
use oxicast.Event.{CastEvent, ConnectionState}
use oxicast.Error.{Result, ok, err, disconnected}
use oxicast.Message.{CastMessage}
use oxicast.Serde.{SerdeJson}
use oxicast.State.{new_state}
use oxicast.Tracker
use oxicast.Channel.Connection.{connect_msg}
use oxicast.Router.{World}
use oxicast.Router.Traffic.{Traffic, pass_all}
use oxicast.Client.State.{Client}
use oxicast.Client.Life.{
  Life, Action, Phase, step, offer, reader_fails, writer_fails, heartbeat_fails,
}
use oxicast.Client.Life.Retry.{spawns}

pub record CastClientBuilder : Type 0 where
  pub host : String
  pub port : ℕ
  pub heartbeat_interval : ℕ
  pub heartbeat_timeout : ℕ
  pub request_timeout : ℕ
  pub auto_reconnect : Bool
  pub max_reconnect_attempts : ℕ
  pub reconnect_delay : ℕ
  pub event_buffer_size : ℕ
  pub verify_tls : Bool

-- `Duration::from_secs`.
abbrev pub from_secs : ℕ → ℕ
from_secs n = n * 1000000000

unfoldable pub new : (host : String) (port : ℕ) → CastClientBuilder
new host port = record {
  host = host;
  port = port;
  heartbeat_interval = from_secs 5;
  heartbeat_timeout = from_secs 15;
  request_timeout = from_secs 10;
  auto_reconnect = true;
  max_reconnect_attempts = 5;
  reconnect_delay = from_secs 2;
  event_buffer_size = 64;
  verify_tls = false;
}

-- The methods that set a field.
abbrev pub heartbeat_interval : ℕ → CastClientBuilder → CastClientBuilder
heartbeat_interval interval b = record b { heartbeat_interval = interval }

abbrev pub heartbeat_timeout : ℕ → CastClientBuilder → CastClientBuilder
heartbeat_timeout timeout b = record b { heartbeat_timeout = timeout }

abbrev pub request_timeout : ℕ → CastClientBuilder → CastClientBuilder
request_timeout timeout b = record b { request_timeout = timeout }

abbrev pub auto_reconnect : Bool → CastClientBuilder → CastClientBuilder
auto_reconnect enabled b = record b { auto_reconnect = enabled }

abbrev pub max_reconnect_attempts : ℕ → CastClientBuilder → CastClientBuilder
max_reconnect_attempts max b = record b { max_reconnect_attempts = max }

abbrev pub reconnect_delay : ℕ → CastClientBuilder → CastClientBuilder
reconnect_delay delay b = record b { reconnect_delay = delay }

abbrev pub event_buffer_size : ℕ → CastClientBuilder → CastClientBuilder
event_buffer_size size b = record b { event_buffer_size = size }

abbrev pub verify_tls : Bool → CastClientBuilder → CastClientBuilder
verify_tls verify b = record b { verify_tls = verify }

pub record ClientConfig : Type 0 where
  pub host : String
  pub port : ℕ
  pub auto_reconnect : Bool
  pub max_reconnect_attempts : ℕ
  pub reconnect_delay : ℕ
  pub heartbeat_interval : ℕ
  pub heartbeat_timeout : ℕ
  pub verify_tls : Bool

abbrev pub config_of : CastClientBuilder → ClientConfig
config_of b = record {
  host = b.host;
  port = b.port;
  auto_reconnect = b.auto_reconnect;
  max_reconnect_attempts = b.max_reconnect_attempts;
  reconnect_delay = b.reconnect_delay;
  heartbeat_interval = b.heartbeat_interval;
  heartbeat_timeout = b.heartbeat_timeout;
  verify_tls = b.verify_tls;
}

-- What the tasks do before `from_builder` announces the connection: each may end by itself.
pub data Exit : Type 0 where
  reader : (reason : Option String) → Exit
  writer heartbeat : Exit

abbrev pub action_of : Exit → Action
action_of (reader reason) = reader_fails reason
action_of writer = writer_fails
action_of heartbeat = heartbeat_fails

unfoldable pub exit_all : List Exit → Life → Life
unfolding step
exit_all [] s = s
exit_all (e ∷ exits) s = exit_all exits (step (action_of e) s)

-- When the tasks have been spawned.
abbrev pub spawned_life : Life
spawned_life = record {
  alive = true;
  shutting_down = false;
  connection = ConnectionState.connected;
  reader = true;
  writer = true;
  heartbeat = true;
  event_open = true;
  events = [];
  pending = [];
  phase = Phase.resting;
  stopping_media = 0;
  stopping_tasks = 0;
}

-- The `Connected` event, and the connection state.
abbrev pub announce : Life → Life
announce s = record (offer CastEvent.connected s) { connection = ConnectionState.connected }

pub record Connected (V : Type 0) : Type 0 where
  pub client : Client V
  pub life : Life
  pub config : ClientConfig
  pub reconnects : Bool

module _ (j : SerdeJson) (to_f32 : F64 → F32) where
  open j use {Value}

  -- With the CONNECT to `receiver-0` sent.
  abbrev pub fresh_world : World Value
  fresh_world = record {
    tracker = Tracker.new;
    state = new_state;
    events = [];
    written = connect_msg j "receiver-0" ∷ [];
  }

  -- `meanwhile` is what the tasks have done by the end. What comes before the CONNECT counts as done
  -- after it.
  abbrev pub connected_client : CastClientBuilder → List Exit → List Traffic → Connected Value
  connected_client b exits meanwhile = record {
    client = record {
      world = pass_all j to_f32 meanwhile fresh_world;
      transport_id = none;
      session_id = none;
      request_timeout = b.request_timeout;
    };
    life = announce (exit_all exits spawned_life);
    config = config_of b;
    reconnects = spawns b.auto_reconnect b.max_reconnect_attempts;
  }

  -- None is the panic of `mpsc::channel` on a buffer of size 0; `accepted` says whether the write
  -- channel takes the CONNECT.
  unfoldable pub from_builder :
      (tls : Result (Unit {0})) (accepted : Bool)
      → List Exit
      → List Traffic
      → CastClientBuilder
      → Option (Result (Connected Value))
  unfolding exit_all
  from_builder (err e) accepted exits meanwhile b = some (err e)
  from_builder (ok u) accepted exits meanwhile b =
      if b.event_buffer_size == 0
      then none
      else some (if accepted then ok (connected_client b exits meanwhile) else err disconnected)
