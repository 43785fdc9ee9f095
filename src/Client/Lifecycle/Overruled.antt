-- ===== src/Client/Lifecycle/Overruled.antt =====
-- A reconnect of src/client.rs during whose handshake a disconnect begins.
use oxicast.Common.{ℕ, Bool, true, false, List, [], ◌∷◌, ◌++◌, ◌≡◌, refl, arith}
use oxicast.Error.{Error, Result, err, disconnected}
use oxicast.Serde.{SerdeJson}
use oxicast.Client.State.{Client}
use oxicast.Client.Life.{
  Life, Action, connecting, resting, in_phase, reader_fails, writer_fails, heartbeat_fails,
  disconnect_begins, disconnect_kills, disconnect_ends, writer_exit, heartbeat_exit, kill,
  end_disconnect, reconnect_begins, step, run, reader_exit, begin_disconnect, begin_reconnect,
  after_handshake,
}
use oxicast.Client.Life.Ended.{run-append}
use oxicast.Client.Life.Recovery.{IsLost}
use oxicast.Client.Lifecycle.{
  Whole, Handshake, refused, established, after_shake, reconnect_with_attempt,
}

-- What others than the reconnect do.
abbrev pub is_elsewhere : Action → Bool
is_elsewhere (reader_fails reason) = true
is_elsewhere writer_fails = true
is_elsewhere heartbeat_fails = true
is_elsewhere disconnect_begins = true
is_elsewhere disconnect_kills = true
is_elsewhere disconnect_ends = true
is_elsewhere _ = false

abbrev pub ElsewhereAll : List Action → Type 0
ElsewhereAll [] = Unit
ElsewhereAll (a ∷ actions) = (is_elsewhere a ≡ true) × ElsewhereAll actions

-- Nothing runs.
pub record IsDown (s : Life) : Type 0 where
  pub dead : s.alive ≡ false
  pub no_reader : s.reader ≡ false
  pub no_writer : s.writer ≡ false
  pub no_heartbeat : s.heartbeat ≡ false

-- A reconnect is in its handshake, with the old tasks stopped.
record IsShaking (s : Life) : Type 0 where
  shaking : in_phase s.phase connecting ≡ true
  down : IsDown s

-- And the flag is set.
record IsOverruled (s : Life) : Type 0 where
  flagged : s.shutting_down ≡ true
  in_handshake : IsShaking s

step-IsShaking :
    (a : Action) (s : Life) → is_elsewhere a ≡ true → IsShaking s → IsShaking (step a s)
unfolding step reader_exit writer_exit heartbeat_exit begin_disconnect kill end_disconnect
step-IsShaking (reader_fails reason) s e h = ground (arith, h.down)
step-IsShaking a s e h = ground (arith, h.down)

step-IsOverruled :
    (a : Action) (s : Life) → is_elsewhere a ≡ true → IsOverruled s → IsOverruled (step a s)
unfolding step reader_exit writer_exit heartbeat_exit begin_disconnect kill end_disconnect
step-IsOverruled (reader_fails reason) s e h = record {
  flagged = ground (arith, h.flagged);
  in_handshake = step-IsShaking (reader_fails reason) s e h.in_handshake;
}
step-IsOverruled a s e h = record {
  flagged = ground (arith, h.flagged);
  in_handshake = step-IsShaking a s e h.in_handshake;
}

-- What every action elsewhere keeps, all of them keep.
run-elsewhere :
    (P : Life → Type 0)
    → ((a : Action) (s : Life) → is_elsewhere a ≡ true → P s → P (step a s))
    → (actions : List Action) (s : Life) → ElsewhereAll actions
    → P s
    → P (run actions s)
unfolding run
run-elsewhere P keeps [] s e h = h
run-elsewhere P keeps (a ∷ actions) s e h =
    run-elsewhere P keeps actions (step a s) e.1 (keeps a s e.0 h)

begin-IsShaking :
    (attempt : ℕ) (s : Life) → IsLost s → IsShaking (step (reconnect_begins attempt) s)
unfolding step begin_reconnect
begin-IsShaking attempt s h = ground arith

flag-IsOverruled : (s : Life) → IsShaking s → IsOverruled (step disconnect_begins s)
unfolding step begin_disconnect
flag-IsOverruled s h = ground (arith, h.down)

shaken-IsOverruled :
    (attempt : ℕ) (before after : List Action) (s : Life)
    → IsLost s
    → ElsewhereAll before
    → ElsewhereAll after
    → IsOverruled (run (reconnect_begins attempt ∷ before ++ disconnect_begins ∷ after) s)
unfolding run
shaken-IsOverruled attempt before after s l eb ea =
    let s₁ = step (reconnect_begins attempt) s in
    rw (run-append (reconnect_begins attempt ∷ before) (disconnect_begins ∷ after) s) (
      run-elsewhere IsOverruled step-IsOverruled after _ ea (
        flag-IsOverruled (run before s₁)
          (run-elsewhere IsShaking step-IsShaking before s₁ eb (begin-IsShaking attempt s l))))

-- The error of a reconnect that is overruled.
abbrev pub reason_of : Handshake → Error
reason_of (refused reason) = reason
reason_of (established receiver_taken transport_taken early) = disconnected

module _ (j : SerdeJson) where
  abbrev pub Overruled : Handshake → Client j.Value → Result (Unit {0}) × Whole j.Value → Type 0
  Overruled h c (result, after) =
      (result ≡ err (reason_of h))
      × (after.client ≡ c)
      × (after.life.shutting_down ≡ true)
      × IsDown after.life
      × (in_phase after.life.phase resting ≡ true)

  after_shake-Overruled :
      (h : Handshake) (s : Life) (c : Client j.Value)
      → IsOverruled s
      → Overruled h c (after_shake j h s c)
  unfolding after_shake step after_handshake
  after_shake-Overruled (refused reason) s c o =
      let h = o.in_handshake in
      (refl, refl, ground arith, ground (arith, h.down), ground (arith, h.shaking))
  after_shake-Overruled (established receiver_taken transport_taken early) s c o =
      let h = o.in_handshake in
      simp (o.flagged, h.shaking)
        (
          refl,
          refl,
          refl,
          record {
            dead = h.down.dead;
            no_reader = h.down.no_reader;
            no_writer = h.down.no_writer;
            no_heartbeat = h.down.no_heartbeat;
          },
          refl,
        )

  -- When a disconnect begins during the handshake of a reconnect of a dead client that was never
  -- disconnected, amid whatever else the tasks and disconnects do, the reconnect fails, with the
  -- handshake's error or `Disconnected`: it leaves the state of the commands as it was, and the
  -- client shut down and not alive, with no reader, writer or heartbeat running.
  pub reconnect-Overruled :
      (attempt : ℕ) (h : Handshake) (before after : List Action) (w : Whole j.Value)
      → IsLost w.life
      → ElsewhereAll before
      → ElsewhereAll after
      → Overruled h w.client
          (reconnect_with_attempt j attempt h (before ++ disconnect_begins ∷ after) w)
  unfolding reconnect_with_attempt
  reconnect-Overruled attempt h before after w l eb ea =
      simp (l.not_flagged, l.dead)
        (after_shake-Overruled h _ w.client
          (shaken-IsOverruled attempt before after w.life l eb ea))
