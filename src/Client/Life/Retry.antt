-- ===== src/Client/Life/Retry.antt =====
-- `spawn_auto_reconnect` of src/client.rs: one wake-up of the task, with its loop over attempts. The
-- call of `reconnect_with_attempt` is a function from the attempt's number and the state to whether
-- it returned `Ok`, and the state after it.
use oxicast.Common.{
  ℕ, zero, suc, Bool, true, false, not, some, ◌≡◌, refl, arith, if◌then◌else◌, ◌==◌, ◌||◌, ◌↔◌, ◌∙◌,
  ap, Option, String,
}
use oxicast.Event.{disconnected, ConnectionState}
use oxicast.Client.Life.{Life, offer, drop_last, step, reader_fails, writer_fails, heartbeat_fails}

-- All attempts are exhausted.
unfoldable pub give_up : Life → Life
give_up s =
    offer (disconnected (some "reconnect failed"))
      (record s { connection = ConnectionState.disconnected })

-- The `match` on an attempt's result; `false` is the task's `return`.
abbrev pub after_attempt : (last : Bool) → (Life → Bool × Life) → Bool × Life → Bool × Life
after_attempt last next (true, s) = (true, s)
after_attempt true next (false, s) = (false, give_up s)
after_attempt false next (false, s) = next s

-- `for attempt in 1..=max`, with the number of attempts left.
unfoldable pub retry_loop : (left attempt : ℕ) → (ℕ → Life → Bool × Life) → Life → Bool × Life
retry_loop zero attempt reconnect s = (true, s)
retry_loop (suc left) attempt reconnect s =
    after_attempt (left == 0) (retry_loop left (suc attempt) reconnect) (reconnect attempt s)

abbrev pub is_lost : ConnectionState → Bool
is_lost ConnectionState.disconnected = true
is_lost _ = false

-- What a change of the connection state makes the task do; `upgraded` is false if the client has
-- been dropped. The answer says whether the task goes on to wait for the next change.
unfoldable pub on_change :
    (max_attempts : ℕ) → (upgraded : Bool) → (ℕ → Life → Bool × Life) → Life → Bool × Life
unfolding retry_loop
on_change max_attempts upgraded reconnect s =
    let retried = retry_loop max_attempts 1 reconnect s in
    if not upgraded || s.shutting_down
    then (false, s)
    else if is_lost s.connection
    then retried
    else (true, s)

-- `config.auto_reconnect` and a positive number of attempts, or no task is spawned.
unfoldable pub spawns : (auto_reconnect : Bool) → (max_attempts : ℕ) → Bool
spawns auto_reconnect max_attempts = not (not auto_reconnect || max_attempts == 0)

-- A change to a connection that is not lost leaves the auto-reconnect task waiting.
pub on_change-connected :
    (max : ℕ) (reconnect : ℕ → Life → Bool × Life) (s : Life)
    → s.shutting_down ≡ false
    → s.connection ≡ ConnectionState.connected
    → on_change max true reconnect s ≡ (true, s)
unfolding on_change
on_change-connected max reconnect s h k = rw (h, k)

-- When the last handle is gone, the tasks do nothing any more, and the auto-reconnect task returns.
drop_last-quiet :
    (s : Life) (reason : Option String) (max_attempts : ℕ) (reconnect : ℕ → Life → Bool × Life)
    → let t = drop_last s in
      (step (reader_fails reason) t ≡ t)
      × (step writer_fails t ≡ t)
      × (step heartbeat_fails t ≡ t)
      × (on_change max_attempts false reconnect t ≡ (false, t))
unfolding drop_last step on_change
drop_last-quiet s reason max_attempts reconnect = (refl, refl, refl, refl)

-- Each attempt fails, the next one starting where the last one ended.
abbrev pub AllFail : (left attempt : ℕ) → (ℕ → Life → Bool × Life) → Life → Type 0
AllFail zero attempt reconnect s = Unit
AllFail (suc left) attempt reconnect s =
    ((reconnect attempt s).0 ≡ false) × AllFail left (suc attempt) reconnect (reconnect attempt s).1

-- The state after those attempts.
abbrev pub after_failures : (left attempt : ℕ) → (ℕ → Life → Bool × Life) → Life → Life
after_failures zero attempt reconnect s = s
after_failures (suc left) attempt reconnect s =
    after_failures left (suc attempt) reconnect (reconnect attempt s).1

attempt-failed :
    (last : Bool) (next : Life → Bool × Life) (got : Bool × Life)
    → got.0 ≡ false
    → after_attempt last next got ≡ (if last then (false, give_up got.1) else next got.1)
attempt-failed last next (true, s) h = cc
attempt-failed true next (false, s) h = refl
attempt-failed false next (false, s) h = refl

pub suc-ne-zero : (n : ℕ) → (suc n == 0) ≡ false
suc-ne-zero n = ground arith

-- When every attempt fails, and there is at least one, the task ends with one `Disconnected` event
-- and the state disconnected, after the last attempt and no earlier.
pub retry_loop-exhausted :
    (left attempt : ℕ) (reconnect : ℕ → Life → Bool × Life) (s : Life)
    → AllFail (suc left) attempt reconnect s
    → retry_loop (suc left) attempt reconnect s
      ≡ (false, give_up (after_failures (suc left) attempt reconnect s))
unfolding retry_loop
retry_loop-exhausted zero attempt reconnect s h =
    attempt-failed true (retry_loop 0 (suc attempt) reconnect) (reconnect attempt s) h.0
retry_loop-exhausted (suc left) attempt reconnect s h =
    attempt-failed (suc left == 0) (retry_loop (suc left) (suc attempt) reconnect)
      (reconnect attempt s) h.0
    ∙ rw (suc-ne-zero left)
        (retry_loop-exhausted left (suc attempt) reconnect (reconnect attempt s).1 h.1)

attempt-gave_up :
    (last : Bool) (next : Life → Bool × Life) (got : Bool × Life)
    → (after_attempt last next got).0 ≡ false
    → got.0 ≡ false
attempt-gave_up last next (true, s) h = cc
attempt-gave_up last next (false, s) h = refl

attempt-passed_on :
    (last : Bool) (next : Life → Bool × Life) (got : Bool × Life)
    → last ≡ false
    → got.0 ≡ false
    → (after_attempt last next got).0 ≡ false
    → (next got.1).0 ≡ false
attempt-passed_on true next got h g k = cc
attempt-passed_on false next (true, s) h g k = cc
attempt-passed_on false next (false, s) h g k = k

fails-AllFail :
    (left attempt : ℕ) (reconnect : ℕ → Life → Bool × Life) (s : Life)
    → (retry_loop (suc left) attempt reconnect s).0 ≡ false
    → AllFail (suc left) attempt reconnect s
unfolding retry_loop
fails-AllFail zero attempt reconnect s h =
    (attempt-gave_up true (retry_loop 0 (suc attempt) reconnect) (reconnect attempt s) h, tt)
fails-AllFail (suc left) attempt reconnect s h =
    let next = retry_loop (suc left) (suc attempt) reconnect in
    let failed = attempt-gave_up (suc left == 0) next (reconnect attempt s) h in
    (
      failed,
      fails-AllFail left (suc attempt) reconnect (reconnect attempt s).1 (
          attempt-passed_on (suc left == 0) next (reconnect attempt s) (suc-ne-zero left) failed h),
    )

-- With at least one attempt, the auto-reconnect task gives up exactly when every attempt fails,
-- each starting from the state that the last one left.
pub retry_loop-gives_up_iff :
    (left attempt : ℕ) (reconnect : ℕ → Life → Bool × Life) (s : Life)
    → ((retry_loop (suc left) attempt reconnect s).0 ≡ false)
      ↔ AllFail (suc left) attempt reconnect s
retry_loop-gives_up_iff left attempt reconnect s = (
  fails-AllFail left attempt reconnect s,
  (λ h. ap (λ (p : Bool × Life). p.0) (retry_loop-exhausted left attempt reconnect s h)),
)
