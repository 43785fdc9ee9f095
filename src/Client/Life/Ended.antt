-- ===== src/Client/Life/Ended.antt =====
-- Whether `disconnect` is final.
use oxicast.Common.{
  ltb, Bool, true, false, List, [], ◌∷◌, ◌++◌, ◌≡◌, refl, arith, ◌∙◌, ◌⊎◌, inl, inr, ◌||◌,
}
use oxicast.Event.{ConnectionState}
use oxicast.Client.Life.{
  Life, checked, storing, announcing, Action, reader_fails, disconnect_begins, disconnect_kills,
  disconnect_ends, reconnect_stores, reconnect_spawns, reconnect_commits, step, run, reader_exit,
  writer_exit, heartbeat_exit, begin_disconnect, kill, end_disconnect, begin_reconnect,
  after_handshake, store_flags, spawn_tasks, commit, in_phase,
}

-- A reconnect is past its second test.
abbrev pub is_past : Life → Bool
is_past s = in_phase s.phase checked || in_phase s.phase storing || in_phase s.phase announcing

-- The client is shut down, and no reconnect is past its second test.
pub record HasEnded (s : Life) : Type 0 where
  pub flagged : s.shutting_down ≡ true
  pub dead : s.alive ≡ false
  pub no_reader : s.reader ≡ false
  pub no_writer : s.writer ≡ false
  pub no_heartbeat : s.heartbeat ≡ false
  pub closed : s.event_open ≡ false
  pub lost : s.connection ≡ ConnectionState.disconnected
  pub not_past : is_past s ≡ false

-- Nothing that can happen revives a client that has ended, or shows it a further event.
pub step-HasEnded :
    (a : Action) (s : Life) → HasEnded s → HasEnded (step a s) × ((step a s).events ≡ s.events)
unfolding step reader_exit writer_exit heartbeat_exit begin_disconnect end_disconnect
    begin_reconnect after_handshake kill store_flags spawn_tasks commit
step-HasEnded (reader_fails reason) s v = (ground arith, ground arith)
step-HasEnded a s v = (ground arith, ground arith)

pub run-HasEnded :
    (actions : List Action) (s : Life)
    → HasEnded s
    → HasEnded (run actions s) × ((run actions s).events ≡ s.events)
unfolding run
run-HasEnded [] s v = (v, refl)
run-HasEnded (a ∷ actions) s v =
    let (w, e) = step-HasEnded a s v in let (x, f) = run-HasEnded actions (step a s) w in (x, f ∙ e)

-- A disconnect that no reconnect can overtake is under way: its kill is still to come, or the client
-- is dead and its end is still to come.
pub record IsLeaving (s : Life) : Type 0 where
  pub flagged : s.shutting_down ≡ true
  pub not_past : is_past s ≡ false
  pub under_way :
      (ltb 0 s.stopping_media ≡ true) ⊎ ((ltb 0 s.stopping_tasks ≡ true) × (s.alive ≡ false))

abbrev Begun : Life → Type 0
Begun s = HasEnded s ⊎ IsLeaving s

-- The client is dead, and the end of a disconnect is still to come.
record IsKilled (s : Life) : Type 0 where
  flagged : s.shutting_down ≡ true
  not_past : is_past s ≡ false
  dead : s.alive ≡ false
  to_end : ltb 0 s.stopping_tasks ≡ true

abbrev Killed : Life → Type 0
Killed s = HasEnded s ⊎ IsKilled s

-- A property that every action keeps, every sequence of actions keeps.
run-keeps :
    (P : Life → Type 0)
    → ((a : Action) (s : Life) → P s → P (step a s))
    → (actions : List Action) (s : Life) → P s
    → P (run actions s)
unfolding run
run-keeps P keeps [] s h = h
run-keeps P keeps (a ∷ actions) s h = run-keeps P keeps actions (step a s) (keeps a s h)

pub run-append : (xs ys : List Action) (s : Life) → run (xs ++ ys) s ≡ run ys (run xs s)
unfolding run
run-append [] ys s = refl
run-append (a ∷ xs) ys s = run-append xs ys (step a s)

leaving-step : (a : Action) (s : Life) → IsLeaving s → Begun (step a s)
unfolding step reader_exit writer_exit heartbeat_exit begin_disconnect kill end_disconnect
    begin_reconnect after_handshake store_flags spawn_tasks commit
leaving-step disconnect_ends s v = elim v.under_way [
  | inl media ↦ inr (ground (arith, media))
  | inr (tasks, dead) ↦ inl (ground (arith, tasks, dead))
]
leaving-step (reader_fails reason) s v = inr (ground (arith, v.under_way))
leaving-step a s v = inr (ground (arith, v.under_way))

step-Killed : (a : Action) (s : Life) → IsKilled s → Killed (step a s)
unfolding step reader_exit writer_exit heartbeat_exit begin_disconnect kill end_disconnect
    begin_reconnect after_handshake store_flags spawn_tasks commit
step-Killed disconnect_ends s v = inl (ground arith)
step-Killed (reader_fails reason) s v = inr (ground arith)
step-Killed a s v = inr (ground arith)

Begun-step : (a : Action) (s : Life) → Begun s → Begun (step a s)
Begun-step a s (inl ended) = inl (step-HasEnded a s ended).0
Begun-step a s (inr leaving) = leaving-step a s leaving

Killed-step : (a : Action) (s : Life) → Killed s → Killed (step a s)
Killed-step a s (inl ended) = inl (step-HasEnded a s ended).0
Killed-step a s (inr killed) = step-Killed a s killed

kill-Killed : (s : Life) → Begun s → Killed (step disconnect_kills s)
unfolding step kill
kill-Killed s (inl ended) = inl (step-HasEnded disconnect_kills s ended).0
kill-Killed s (inr leaving) = inr (ground (arith, leaving.under_way))

end-HasEnded : (s : Life) → Killed s → HasEnded (step disconnect_ends s)
unfolding step end_disconnect
end-HasEnded s (inl ended) = (step-HasEnded disconnect_ends s ended).0
end-HasEnded s (inr killed) = ground arith

begin-Begun : (s : Life) → is_past s ≡ false → Begun (step disconnect_begins s)
unfolding step begin_disconnect
begin-Begun s h = inr (ground arith)

-- A `disconnect` that begins with no reconnect past its second test ends the client for good,
-- whatever other calls of it are under way, and whatever happens before its kill, before its end and
-- afterwards.
pub run-disconnect :
    (before between after : List Action) (s : Life)
    → is_past s ≡ false
    → HasEnded (
        run (disconnect_begins ∷ before ++ disconnect_kills ∷ between ++ disconnect_ends ∷ after) s)
unfolding run
run-disconnect before between after s h =
    let s₁ = run before (step disconnect_begins s) in
    let s₂ = run between (step disconnect_kills s₁) in
    let begun = run-keeps Begun Begun-step before (step disconnect_begins s) (begin-Begun s h) in
    let killed =
      run-keeps Killed Killed-step between (step disconnect_kills s₁) (kill-Killed s₁ begun) in
    rw
      (
        run-append (disconnect_begins ∷ before ++ disconnect_kills ∷ between)
            (disconnect_ends ∷ after) s,
        run-append (disconnect_begins ∷ before) (disconnect_kills ∷ between) s,
      )
      (run-HasEnded after (step disconnect_ends s₂) (end-HasEnded s₂ killed)).0

-- A reconnect past its second test undoes a `disconnect` that runs to its end before the reconnect
-- sets its flags: the client is alive with all its tasks, the shutdown flag is cleared, and the
-- event channel stays closed.
pub disconnect_undone :
    (s : Life) (accepted : Bool)
    → in_phase s.phase checked ≡ true
    → let after =
        run
          (disconnect_begins
            ∷ disconnect_kills
            ∷ disconnect_ends
            ∷ reconnect_stores
            ∷ reconnect_spawns
            ∷ reconnect_commits accepted
            ∷ [])
          s in
      (after.alive ≡ true)
      × (after.shutting_down ≡ false)
      × (after.reader ≡ true)
      × (after.writer ≡ true)
      × (after.heartbeat ≡ true)
      × (after.event_open ≡ false)
unfolding run step begin_disconnect kill end_disconnect store_flags spawn_tasks commit
disconnect_undone s accepted h =
    (ground arith, ground arith, ground arith, ground arith, ground arith, ground arith)
