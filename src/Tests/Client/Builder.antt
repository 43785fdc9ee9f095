-- ===== src/Tests/Client/Builder.antt =====
-- Runs of the builder.
use oxicast.Common.{ℕ, ◌≡◌, refl, ◌↔◌, Bool, true, false, none, some, List, [], ◌∷◌}
use oxicast.Event.{ConnectionState}
use oxicast.Error.{ok, err, disconnected, tls}
use oxicast.Router.Traffic.{reads}
use oxicast.Client.Life.{
  Life, handshake_fails, disconnect_begins, step, run, writer_exit, reader_exit, heartbeat_exit,
}
use oxicast.Client.Life.Alive.{IsTruthful}
use oxicast.Client.Life.Retry.{on_change}
use oxicast.Client.Builder.{
  CastClientBuilder, Connected, Exit, writer, new, event_buffer_size, max_reconnect_attempts,
  from_builder, connected_client, exit_all,
}
use oxicast.Client.Builder.Fresh.{IsNew, from_builder-IsTruthful, from_builder-lost}
use oxicast.Tests.Base.{json, to_f32, media_msg}
use oxicast.Tests.Client.{commands}

building : Unit {0}
unfolding commands new from_builder exit_all step run writer_exit reader_exit heartbeat_exit
building = tt

abbrev builder : CastClientBuilder
builder = max_reconnect_attempts 3 (new "192.168.1.100" 8009)

abbrev built : List Exit → Connected json.Value
built exits = connected_client json to_f32 builder exits (reads media_msg ∷ [])

builder_tests :
    (from_builder json to_f32 (err (tls "refused")) true [] [] builder ≡ some (err (tls "refused")))
    × (from_builder json to_f32 (ok tt) true [] [] (event_buffer_size 0 builder) ≡ none)
    × (from_builder json to_f32 (ok tt) false [] [] builder ≡ some (err disconnected))
unfolding building
builder_tests = (refl, refl, refl)

abbrev no_exits : List Exit
no_exits = []

from_builder-IsTruthful_example :
    IsNew json to_f32 (built no_exits).client
    × IsTruthful (run (disconnect_begins ∷ handshake_fails ∷ []) (built no_exits).life)
    × (((built no_exits).life.alive ≡ true) ↔ (no_exits ≡ []))
unfolding building
from_builder-IsTruthful_example =
    from_builder-IsTruthful json to_f32 (ok tt) true no_exits (reads media_msg ∷ []) builder
      (built no_exits) (disconnect_begins ∷ handshake_fails ∷ []) refl (refl, (refl, tt))

abbrev reconnect : ℕ → Life → Bool × Life
reconnect attempt s = (false, s)

abbrev broken : Life
broken = (built (writer ∷ [])).life

from_builder-lost_example :
    (broken.alive ≡ false)
    × (broken.connection ≡ ConnectionState.connected)
    × (on_change 3 true reconnect broken ≡ (true, broken))
unfolding building
from_builder-lost_example =
    from_builder-lost json to_f32 (ok tt) true (writer ∷ []) (reads media_msg ∷ []) builder
      (built (writer ∷ [])) reconnect refl (λ q. cc)
