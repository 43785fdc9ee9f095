-- ===== src/Client/Calls/Own.antt =====
-- Whose answer a command gets, in any interleaving.
pub mod Table
use oxicast.Common.{
  ℕ, ◌^◌, ◌<◌, ◌≤◌, ◌≡◌, refl, sym, ap, ◌∙◌, subst, Bool, Option, none, some, ◌∷◌, ◌==◌,
  if◌then◌else◌, inl, inr, arith, Bool-cases,
}
use oxicast.Common.Int.{as_u32}
use oxicast.Types.{F64, F32}
use oxicast.Error.{ok}
use oxicast.Serde.{SerdeJson}
use oxicast.Tracker.{
  Tracker, Outcome, received, sender_dropped, elapsed, get, register, resolve, wait_for, clear,
  forget, next_id, new,
}
use oxicast.Tracker.Laws.{channels-resolve, resolve_lem, get-remove, get-insert}
use oxicast.Router.Dispatch.{parsed}
use oxicast.Router.Parse.Fields.{get_u64}
use oxicast.Router.Correlation.{AnswersOwn, route-AnswersOwn}
use oxicast.Client.Calls.{
  Calls, Status, registered, waiting, abandoned, returned, id_of, Delivered, Observes, Step,
  registers, sends, is_refused, routes, returns, is_abandoned, Move, steps, clears, Reach, start,
  later,
}
use oxicast.Client.Calls.Own.Table.{
  IsOwn, IsOwn-shrunk, IsOwn-set_status, IsOwn-resolve, IsOwn-register,
}

same_some : {a b : ℕ} → some a ≡ some b → a ≡ b
same_some e = ground arith

value_of :
    {V : Type 0} {i k : ℕ} {v w : V}
    → ◌≡◌ {A = Status V} (returned i (ok v)) (returned k (ok w))
    → v ≡ w
value_of e = cc

module _ (j : SerdeJson) (to_f32 : F64 → F32) (limit : ℕ) where
  -- The payload names a positive number, which is the request id when it is cast to a `u32`.
  abbrev pub Names : j.Value → ℕ → Type 0
  Names json id = (n : ℕ) × (get_u64 j json "requestId" ≡ some n) × (0 < n) × (as_u32 n ≡ id)

  abbrev pub IsOwnCalls : Calls j.Value → Type 0
  IsOwnCalls s = IsOwn Names s.tracker s.status

  IsOwn-answers :
      (o : Option j.Value) (t u : Tracker j.Value) (status : ℕ → Status j.Value)
      → AnswersOwn j to_f32 o t u
      → IsOwn Names t status
      → IsOwn Names u status
  IsOwn-answers none t u status e h = subst (λ x. IsOwn Names x status) (sym e) h
  IsOwn-answers (some json) t u status (inl e) h = subst (λ x. IsOwn Names x status) (sym e) h
  IsOwn-answers (some json) t u status (inr (n, names, positive, e)) h =
      subst (λ x. IsOwn Names x status) (sym e)
        (IsOwn-resolve Names (as_u32 n) json t status h (n, names, positive, refl))

  IsOwn-forget :
      (id : ℕ) (t : Tracker j.Value) (status : ℕ → Status j.Value)
      → IsOwn Names t status
      → IsOwn Names (forget id t) status
  unfolding forget
  IsOwn-forget id t status h =
      IsOwn-shrunk Names t (forget id t) status h
        (λ i c e. ground (arith, get-remove id i t.pending)) refl refl

  IsOwn-wait :
      (c id : ℕ) (o : Outcome j.Value) (t : Tracker j.Value) (status : ℕ → Status j.Value)
      → status c ≡ waiting id
      → Observes t c o
      → IsOwn Names t status
      → let (r, u) = wait_for limit id o t in
        IsOwn Names u (λ i. if i == c then returned id r else status i)
  unfolding wait_for
  IsOwn-wait c id (received v) t status e d h =
      IsOwn-set_status Names t status c (returned id (ok v)) h (ap id_of (sym e)) (λ id' v' k.
        let (i, own, names) = h.sent_own c v d in
        let same_id : i ≡ id' = same_some (sym own ∙ ap id_of e ∙ ap id_of k) in
        subst (λ x. Names x id') (value_of k) (subst (Names v) same_id names))
  IsOwn-wait c id sender_dropped t status e d h =
      IsOwn-set_status Names (forget id t) status c _ (IsOwn-forget id t status h)
        (ap id_of (sym e)) (λ id' v' k. absurd (ground arith))
  IsOwn-wait c id elapsed t status e d h =
      IsOwn-set_status Names (forget id t) status c _ (IsOwn-forget id t status h)
        (ap id_of (sym e)) (λ id' v' k. absurd (ground arith))

  Step-IsOwn : {s t : Calls j.Value} → Step j to_f32 limit s t → IsOwnCalls s → IsOwnCalls t
  Step-IsOwn {s} registers h = IsOwn-register Names s.tracker s.status h
  Step-IsOwn {s} (sends c id build e) h =
      IsOwn-set_status Names s.tracker s.status c (waiting id) h (ap id_of (sym e))
        (λ id' v' k. absurd (ground arith))
  Step-IsOwn {s} (is_refused c id e) h =
      IsOwn-set_status Names s.tracker s.status c _ h (ap id_of (sym e))
        (λ id' v' k. absurd (ground arith))
  Step-IsOwn {s} (routes m) h =
      IsOwn-answers (parsed j to_f32 m) s.tracker _ s.status (route-AnswersOwn j to_f32 m s.world) h
  Step-IsOwn {s} (returns c id o e d) h = IsOwn-wait c id o s.tracker s.status e d h
  Step-IsOwn {s} (is_abandoned c id e) h =
      IsOwn-set_status Names s.tracker s.status c (abandoned id) h (ap id_of (sym e))
        (λ id' v' k. absurd (ground arith))

  Move-IsOwn : {s t : Calls j.Value} → Move j to_f32 limit s t → IsOwnCalls s → IsOwnCalls t
  unfolding clear get
  Move-IsOwn (steps x) h = Step-IsOwn x h
  Move-IsOwn {s} clears h =
      IsOwn-shrunk Names s.tracker (clear s.tracker) s.status h (λ i c e. absurd (ground arith))
        refl refl

  pub Reach-IsOwn : {s : Calls j.Value} → Reach j to_f32 limit s → IsOwnCalls s
  unfolding new get
  Reach-IsOwn start = record {
    pending_own = λ i c e. absurd (ground arith);
    sent_own = λ c v d. absurd d;
    returned_own = λ c id v e. absurd (ground arith);
    fresh = λ c k. refl;
  }
  Reach-IsOwn (later r x) = Move-IsOwn x (Reach-IsOwn r)

  -- When clones of the client run requests at the same time, in any order of their parts, with the
  -- messages that the reader routes and the tracker cleared in between: a request that returns a
  -- payload returns one that names a positive number, and this number is the request's id modulo
  -- 2^32, as the cast to `u32` gives it; so it is the request's own id, if it fits a `u32`.
  pub returned-Names :
      {s : Calls j.Value} (c id : ℕ) (v : j.Value)
      → Reach j to_f32 limit s
      → s.status c ≡ returned id (ok v)
      → Names v id × ((n : ℕ) → get_u64 j v "requestId" ≡ some n → n < 2 ^ 32 → n ≡ id)
  returned-Names c id v r e =
      let (n, names, positive, same) = (Reach-IsOwn r).returned_own c id v e in
      (
        (n, names, positive, same),
        λ m named small.
            let here : n ≡ m = same_some (sym names ∙ named) in omega (arith, here, same, small),
      )
