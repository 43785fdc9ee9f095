-- ===== src/Heartbeat/Timing.antt =====
-- The heartbeat task of src/client/heartbeat.rs on a clock: the ticker, and `LastActivity`, which the
-- reader sets on every message. A time is a number of nanoseconds since some start.
use oxicast.Common.{
  ℕ, zero, suc, ◌+◌, ◌-◌, ◌*◌, ◌≤◌, ◌<◌, ◌≡◌, refl, ◌∙◌, Bool, true, false, List, [], ◌∷◌, ◌++◌,
  ltb, arith, All, length, inl, inr, Bool-cases,
}
use oxicast.Event.{heartbeat_timeout, ConnectionState}
use oxicast.Heartbeat.Task.{
  Round, tick, cancelled, Pulse, Exit, timed_out, heartbeat_round, heartbeat_task, IsTimely,
  round_timely, after_pings, heartbeat_task-step, heartbeat_task-stop,
}

-- The time of the last message.
abbrev pub LastActivity : Type 0
LastActivity = ℕ

abbrev pub new_last_activity : (now : ℕ) → LastActivity
new_last_activity now = now

abbrev pub touch : (now : ℕ) → LastActivity
touch now = now

-- `Instant::elapsed`, which stops at 0.
abbrev pub elapsed : LastActivity → (now : ℕ) → ℕ
elapsed last now = now - last

-- What happens to the task, with its time: a message comes, the ticker ticks, or the task is cancelled.
pub data Happening : Type 0 where
  hears : (now : ℕ) → Happening
  ticks : (now : ℕ) (accepted : Bool) → Happening
  cancels : Happening

-- The rounds that the loop runs through.
unfoldable pub rounds_of : LastActivity → List Happening → List Round
rounds_of last [] = []
rounds_of last (hears now ∷ more) = rounds_of (touch now) more
rounds_of last (ticks now accepted ∷ more) = tick accepted (elapsed last now) ∷ rounds_of last more
rounds_of last (cancels ∷ more) = cancelled ∷ rounds_of last more

-- The ticker from `now` on, with the PINGs taken, and nothing heard.
unfoldable pub silence : (interval now n : ℕ) → List Happening
silence interval now zero = []
silence interval now (suc n) = ticks now true ∷ silence interval (now + interval) n

-- The state after the timeout, with that many PINGs sent.
abbrev pub lost : ℕ → Pulse → Pulse
lost pings p = record p {
  alive = false;
  connection = ConnectionState.disconnected;
  events = heartbeat_timeout ∷ p.events;
  pings = p.pings + pings;
}

-- The task ends at the first tick after the timeout, which comes within an interval of it.
abbrev pub EndsInTime :
    (timeout interval : ℕ) → LastActivity → (now n pings : ℕ) → Pulse → Exit × Pulse → Type 0
EndsInTime timeout interval last now n pings p result =
    (k : ℕ) × (k ≤ n)
    × (last + timeout < now + k * interval)
    × (now + k * interval ≤ last + timeout + interval)
    × (result ≡ (timed_out, lost (pings + (k + 1)) p))

round_late :
    (timeout since : ℕ) (p : Pulse)
    → timeout < since
    → heartbeat_round timeout (tick true since) p ≡ (timed_out, lost 1 p)
unfolding heartbeat_round
round_late timeout since p h = ground arith

module _ (timeout interval : ℕ) (last : LastActivity) where
  -- The loop from a tick on, when nothing is heard any more.
  abbrev quiet : (now n : ℕ) → Pulse → Exit × Pulse
  quiet now n p = heartbeat_task timeout (rounds_of last (silence interval now (suc n))) p

  quiet-late :
      (now n : ℕ) (p : Pulse)
      → now ≤ last + timeout + interval
      → timeout < now - last
      → EndsInTime timeout interval last now n 0 p (quiet now n p)
  unfolding rounds_of silence
  quiet-late now n p soon late = (
    0,
    omega arith,
    omega (arith, late),
    omega (arith, soon),
    heartbeat_task-stop timeout (tick true (now - last))
        (rounds_of last (silence interval (now + interval) n)) p (lost 1 p)
        (round_late timeout (now - last) p late),
  )

  quiet-timely :
      (now n : ℕ) (p : Pulse)
      → now - last ≤ timeout
      → EndsInTime timeout interval last
          (now + interval)
          n
          0
          (after_pings 1 p)
          (quiet (now + interval) n (after_pings 1 p))
      → EndsInTime timeout interval last now (suc n) 0 p (quiet now (suc n) p)
  unfolding rounds_of silence
  quiet-timely now n p timely (k, low, after, within, e) = (
    suc k,
    omega (arith, low),
    omega (arith, after),
    omega (arith, within),
    heartbeat_task-step timeout (tick true (now - last))
          (rounds_of last (silence interval (now + interval) (suc n))) p (after_pings 1 p)
          (round_timely timeout (tick true (now - last)) p (refl, timely))
        ∙ e
        ∙ ground arith,
  )

  quiet-EndsInTime :
      (n now : ℕ) (p : Pulse)
      → now ≤ last + timeout + interval
      → last + timeout < now + n * interval
      → EndsInTime timeout interval last now n 0 p (quiet now n p)
  quiet-EndsInTime zero now p soon enough = quiet-late now zero p soon (omega (arith, enough))
  quiet-EndsInTime (suc n) now p soon enough = elim (Bool-cases (ltb timeout (now - last))) [
    | inl late ↦ quiet-late now (suc n) p soon (ground arith)
    | inr timely ↦ quiet-timely now n p (ground arith) (
        quiet-EndsInTime n (now + interval) (after_pings 1 p) (ground arith)
          (omega (arith, enough)))
  ]

-- Ticks that are answered in time send their PINGs.
heartbeat_task-timely :
    (timeout : ℕ) (before rs : List Round) (p : Pulse)
    → All (IsTimely timeout) before
    → heartbeat_task timeout (before ++ rs) p
      ≡ heartbeat_task timeout rs (after_pings (length before) p)
heartbeat_task-timely timeout [] rs p h = ground arith
heartbeat_task-timely timeout (r ∷ before) rs p h =
    heartbeat_task-step timeout r (before ++ rs) p (after_pings 1 p) (round_timely timeout r p h.0)
    ∙ heartbeat_task-timely timeout before rs (after_pings 1 p) h.1
    ∙ ground arith

-- After ticks that are answered in time, a device that falls silent is found out: with the PINGs
-- taken, the next tick no later than an interval after the timeout, and enough ticks, the task ends
-- at a tick after the timeout and within an interval of it. It has then cleared `alive`, set the
-- state to disconnected, raised one `HeartbeatTimeout`, and sent one PING for each tick.
pub heartbeat_task-EndsInTime :
    (timeout interval last now n : ℕ) (before : List Round) (p : Pulse)
    → All (IsTimely timeout) before
    → now ≤ last + timeout + interval
    → last + timeout < now + n * interval
    → EndsInTime timeout interval last now n
        (length before)
        p
        (heartbeat_task timeout (before ++ rounds_of last (silence interval now (suc n))) p)
heartbeat_task-EndsInTime timeout interval last now n before p h soon enough =
    let (k, low, after, within, e) =
      quiet-EndsInTime timeout interval last n now (after_pings (length before) p) soon enough in
    (k, low, after, within, heartbeat_task-timely timeout before _ p h ∙ e ∙ ground arith)
