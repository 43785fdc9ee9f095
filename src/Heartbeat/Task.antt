-- ===== src/Heartbeat/Task.antt =====
-- `spawn_heartbeat_task`: the loop over ticks. A tick carries what its surroundings answer: whether
-- the write channel took the PING, and the time since the last inbound message. The cancellation
-- arm of the `select!` is a round of its own.
use oxicast.Common.{
  ℕ, ◌+◌, ◌≤◌, ◌≡◌, refl, Bool, true, false, List, [], ◌∷◌, ◌≢◌, ◌∙◌, ltb, if◌then◌else◌, arith,
  inl, inr, Bool-cases,
}
use oxicast.Event.{CastEvent, heartbeat_timeout, ConnectionState}

pub data Round : Type 0 where
  tick : (accepted : Bool) (elapsed : ℕ) → Round
  cancelled : Round

-- What the task shares with the client, and the log of its PINGs.
pub record Pulse : Type 0 where
  pub alive : Bool
  pub connection : ConnectionState
  pub events : List CastEvent
  pub pings : ℕ

pub data Exit : Type 0 where
  running write_closed timed_out stopped : Exit

-- The liveness check after a PING.
abbrev pub check_liveness : ℕ → ℕ → Pulse → Exit × Pulse
check_liveness timeout elapsed p =
    if ltb timeout elapsed
    then (
      timed_out,
      record p {
        alive = false;
        connection = ConnectionState.disconnected;
        events = heartbeat_timeout ∷ p.events;
      },
    )
    else (running, p)

unfoldable pub heartbeat_round : ℕ → Round → Pulse → Exit × Pulse
heartbeat_round timeout cancelled p = (stopped, p)
heartbeat_round timeout (tick false elapsed) p = (write_closed, p)
heartbeat_round timeout (tick true elapsed) p =
    check_liveness timeout elapsed (record p { pings = p.pings + 1 })

-- A round that does not end the loop is followed by the next ones.
abbrev pub unless_ended : (Pulse → Exit × Pulse) → Exit × Pulse → Exit × Pulse
unless_ended next (running, p) = next p
unless_ended next (write_closed, p) = (write_closed, p)
unless_ended next (timed_out, p) = (timed_out, p)
unless_ended next (stopped, p) = (stopped, p)

-- The loop, over the rounds that the surroundings provide. A `break` leaves the rest unread.
unfoldable pub heartbeat_task : ℕ → List Round → Pulse → Exit × Pulse
heartbeat_task timeout [] p = (running, p)
heartbeat_task timeout (r ∷ rs) p =
    unless_ended (heartbeat_task timeout rs) (heartbeat_round timeout r p)

-- A tick that is answered in time.
abbrev pub IsTimely : ℕ → Round → Type 0
IsTimely timeout (tick accepted elapsed) = (accepted ≡ true) × (elapsed ≤ timeout)
IsTimely timeout cancelled = ⊥

pub round_timely :
    (timeout : ℕ) (r : Round) (p : Pulse)
    → IsTimely timeout r
    → heartbeat_round timeout r p ≡ (running, record p { pings = p.pings + 1 })
unfolding heartbeat_round
round_timely timeout (tick true elapsed) p h = ground arith
round_timely timeout (tick false elapsed) p h = absurd (ground arith)
round_timely timeout cancelled p h = absurd h

-- The state after a number of PINGs.
abbrev pub after_pings : ℕ → Pulse → Pulse
after_pings n p = record p { pings = p.pings + n }

pub heartbeat_task-step :
    (timeout : ℕ) (r : Round) (rs : List Round) (p q : Pulse)
    → heartbeat_round timeout r p ≡ (running, q)
    → heartbeat_task timeout (r ∷ rs) p ≡ heartbeat_task timeout rs q
unfolding heartbeat_task
heartbeat_task-step timeout r rs p q e = rw e

pub heartbeat_task-stop :
    (timeout : ℕ) (r : Round) (rs : List Round) (p q : Pulse)
    → heartbeat_round timeout r p ≡ (timed_out, q)
    → heartbeat_task timeout (r ∷ rs) p ≡ (timed_out, q)
unfolding heartbeat_task
heartbeat_task-stop timeout r rs p q e = rw e

-- Only a timeout touches the shared state: a cancelled task, or one whose channel is closed, leaves
-- the liveness flag, the connection state and the events alone.
abbrev pub SameShared : Pulse → Pulse → Type 0
SameShared p q = (q.alive ≡ p.alive) × (q.connection ≡ p.connection) × (q.events ≡ p.events)

round_shared :
    (timeout : ℕ) (r : Round) (p : Pulse)
    → (heartbeat_round timeout r p).0 ≢ timed_out
    → SameShared p (heartbeat_round timeout r p).1
unfolding heartbeat_round
round_shared timeout cancelled p h = (refl, refl, refl)
round_shared timeout (tick false elapsed) p h = (refl, refl, refl)
round_shared timeout (tick true elapsed) p h = elim (Bool-cases (ltb timeout elapsed)) [
  | inl e ↦ absurd (h (rw e))
  | inr e ↦ rw e (refl, refl, refl)
]

unless_ended-shared :
    (next : Pulse → Exit × Pulse) (p : Pulse) (got : Exit × Pulse)
    → ((q : Pulse) → (next q).0 ≢ timed_out → SameShared q (next q).1)
    → (got.0 ≢ timed_out → SameShared p got.1)
    → (unless_ended next got).0 ≢ timed_out
    → SameShared p (unless_ended next got).1
unless_ended-shared next p (running, q) later first h =
    let (a, b, c) = first (λ e. cc) in let (a', b', c') = later q h in (a' ∙ a, b' ∙ b, c' ∙ c)
unless_ended-shared next p (write_closed, q) later first h = first h
unless_ended-shared next p (timed_out, q) later first h = absurd (h refl)
unless_ended-shared next p (stopped, q) later first h = first h

-- A heartbeat task that has not timed out has left the `alive` flag, the connection state and the
-- events as they were.
pub heartbeat_task-shared :
    (timeout : ℕ) (rs : List Round) (p : Pulse)
    → (heartbeat_task timeout rs p).0 ≢ timed_out
    → SameShared p (heartbeat_task timeout rs p).1
unfolding heartbeat_task
heartbeat_task-shared timeout [] p h = (refl, refl, refl)
heartbeat_task-shared timeout (r ∷ rs) p h =
    unless_ended-shared (heartbeat_task timeout rs) p (heartbeat_round timeout r p)
      (heartbeat_task-shared timeout rs) (round_shared timeout r p) h
