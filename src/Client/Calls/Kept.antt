-- ===== src/Client/Calls/Kept.antt =====
-- No waiting command is forgotten while the tracker is not cleared and its ids do not repeat.
pub mod Table
use oxicast.Common.{
  ℕ, ◌<◌, ◌≤◌, ◌+◌, ◌%◌, ◌^◌, ◌≡◌, ◌≢◌, refl, sym, ap, ◌∙◌, subst, Bool, Option, none, some, ◌==◌,
  if◌then◌else◌, ◌⊎◌, inl, inr, arith, Bool-cases,
}
use oxicast.Common.Int.{as_u32}
use oxicast.Types.{F64, F32}
use oxicast.Serde.{SerdeJson}
use oxicast.Tracker.{
  Tracker, Outcome, received, sender_dropped, elapsed, get, register, resolve, wait_for, forget,
  next_id, new, deliver,
}
use oxicast.Tracker.Laws.{channels-resolve, resolve_lem, get-remove, get-insert}
use oxicast.Tracker.Ids.{next_id_lem, next_id_bounds}
use oxicast.Router.Dispatch.{parsed}
use oxicast.Router.Correlation.{AnswersOwn, route-AnswersOwn}
use oxicast.Client.Calls.{
  Calls, Status, unstarted, registered, waiting, abandoned, returned, Delivered, Observes, Step,
  registers, sends, is_refused, routes, returns, is_abandoned, ReachUncleared, start, later,
}
use oxicast.Client.Calls.Kept.Table.{
  id_count, none_ne_some, active_id, IsServed, IsKept, IsKept-resolve, IsKept-set_status,
  IsKept-forget, IsKept-register,
}

module _ (j : SerdeJson) (to_f32 : F64 → F32) (limit : ℕ) where
  abbrev IsKeptCalls : Calls j.Value → Type 0
  IsKeptCalls s = IsKept s.tracker s.status

  IsKept-answers :
      (o : Option j.Value) (t u : Tracker j.Value) (status : ℕ → Status j.Value)
      → AnswersOwn j to_f32 o t u
      → IsKept t status
      → IsKept u status
  IsKept-answers none t u status e h = subst (λ x. IsKept x status) (sym e) h
  IsKept-answers (some json) t u status (inl e) h = subst (λ x. IsKept x status) (sym e) h
  IsKept-answers (some json) t u status (inr (n, names, positive, e)) h =
      subst (λ x. IsKept x status) (sym e) (IsKept-resolve (as_u32 n) json t status h)

  IsKept-wait :
      (c id : ℕ) (o : Outcome j.Value) (t : Tracker j.Value) (status : ℕ → Status j.Value)
      → status c ≡ waiting id
      → IsKept t status
      → let (r, u) = wait_for limit id o t in
        IsKept u (λ i. if i == c then returned id r else status i)
  unfolding wait_for
  IsKept-wait c id (received v) t status e h = IsKept-set_status t status c _ h (inr refl)
  IsKept-wait c id sender_dropped t status e h =
      IsKept-forget t status c id _ h (ap active_id e) refl
  IsKept-wait c id elapsed t status e h = IsKept-forget t status c id _ h (ap active_id e) refl

  Step-IsKept : {s t : Calls j.Value} → Step j to_f32 limit s t → IsKeptCalls s → IsKeptCalls t
  Step-IsKept {s} registers h = IsKept-register s.tracker s.status h
  Step-IsKept {s} (sends c id build e) h =
      IsKept-set_status s.tracker s.status c (waiting id) h (inl (ap active_id (sym e)))
  Step-IsKept {s} (is_refused c id e) h = IsKept-set_status s.tracker s.status c _ h (inr refl)
  Step-IsKept {s} (routes m) h =
      IsKept-answers (parsed j to_f32 m) s.tracker _ s.status (route-AnswersOwn j to_f32 m s.world)
        h
  Step-IsKept {s} (returns c id o e d) h = IsKept-wait c id o s.tracker s.status e h
  Step-IsKept {s} (is_abandoned c id e) h =
      IsKept-set_status s.tracker s.status c (abandoned id) h (inl (ap active_id (sym e)))

  ReachUncleared-IsKept : {s : Calls j.Value} → ReachUncleared j to_f32 limit s → IsKeptCalls s
  unfolding new next_id
  ReachUncleared-IsKept start = record {
    bounded = omega arith;
    in_step = refl;
    numbered = λ c id e. absurd (none_ne_some e);
    served = λ few c id e. absurd (none_ne_some e);
  }
  ReachUncleared-IsKept (later r x) = Step-IsKept x (ReachUncleared-IsKept r)

  -- In any such order, while the tracker is not cleared and no more requests were made than there
  -- are ids: a request that waits is pending under its id, or its answer has been put on its
  -- channel, and it sees no dropped sender. A request that its caller dropped while it waited is
  -- pending or answered too: dropping it removes nothing.
  pub waiting-IsServed :
      {s : Calls j.Value} (c id : ℕ)
      → ReachUncleared j to_f32 limit s
      → s.tracker.channels ≤ id_count
      → (s.status c ≡ waiting id → IsServed s.tracker c id × ¬ Observes s.tracker c sender_dropped)
        × (s.status c ≡ abandoned id → IsServed s.tracker c id)
  waiting-IsServed c id r few = (
    λ e.
        let served = (ReachUncleared-IsKept r).served few c id (ap active_id e) in
        (
          served,
          λ gone. elim served [
            | inl waits ↦ gone.0 id waits
            | inr (v, answered) ↦ gone.1 v answered
          ],
        ),
    λ e. (ReachUncleared-IsKept r).served few c id (ap active_id e),
  )
