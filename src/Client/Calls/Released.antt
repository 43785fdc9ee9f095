-- ===== src/Client/Calls/Released.antt =====
-- When the tracker is cleared at the end of a connection, nobody waits for an answer in vain.
use oxicast.Common.{
  ℕ, ◌<◌, ◌≤◌, ◌≡◌, ◌≢◌, refl, sym, ap, ◌∙◌, subst, Bool, Option, none, some, List, [], ◌∷◌, ◌==◌,
  ◌⊎◌, inl, inr, arith, Bool-cases, ltb,
}
use oxicast.Common.Int.{as_u32}
use oxicast.Types.{F64, F32}
use oxicast.Serde.{SerdeJson}
use oxicast.Tracker.{
  Tracker, Outcome, received, sender_dropped, elapsed, get, register, resolve, wait_for, forget,
  next_id, clear,
}
use oxicast.Tracker.Laws.{channels-resolve, resolve_lem, get-remove, get-insert}
use oxicast.Router.Dispatch.{parsed}
use oxicast.Router.Correlation.{AnswersOwn, route-AnswersOwn}
use oxicast.Client.Calls.{
  Calls, waiting, id_of, set_tracker, Delivered, Observes, Step, registers, sends, is_refused,
  routes, returns, is_abandoned, Move, steps, clears, Reach,
}
use oxicast.Client.Calls.Own.{Reach-IsOwn}
use oxicast.Client.Calls.Kept.Table.{none_ne_some}

module _ {V : Type 0} where
  -- The channel was created, and its receiver sees a payload, or that its sender is gone.
  pub record IsReleased (t : Tracker V) (c : ℕ) : Type 0 where
    pub known : c < t.channels
    pub seen : ((v : V) × Delivered c v t.sent) ⊎ Observes t c sender_dropped

  -- Whether a channel was given a payload.
  Delivered-cases :
      (c : ℕ) (sent : List (ℕ × V))
      → ((v : V) × Delivered c v sent) ⊎ ((v : V) → ¬ Delivered c v sent)
  Delivered-cases c [] = inr (λ v d. absurd d)
  Delivered-cases c ((d, w) ∷ sent) = elim (Bool-cases (d == c)) [
    | inl q ↦ let same : d ≡ c = ground arith in inl (w, inl (same, refl))
    | inr q ↦
        let differ : d ≢ c = ground arith in
        elim (Delivered-cases c sent) [
          | inl (v, told) ↦ inl (v, inr told)
          | inr none_told ↦
              inr (λ v told. elim told [
                | inl (same, e) ↦ differ same
                | inr older ↦ none_told v older
              ])
        ]
  ]

  clear-IsReleased : (t : Tracker V) (c : ℕ) → c < t.channels → IsReleased (clear t) c
  unfolding clear get
  clear-IsReleased t c h = record {
    known = h;
    seen = elim (Delivered-cases c t.sent) [
      | inl told ↦ inl told
      | inr none_told ↦ inr ((λ i e. absurd (ground arith)), none_told)
    ];
  }

  -- The table only loses entries, or gets one for another channel.
  IsReleased-pending :
      (t u : Tracker V) (c : ℕ)
      → IsReleased t c
      → t.channels ≤ u.channels
      → u.sent ≡ t.sent
      → ((i : ℕ) → get i u.pending ≡ some c → get i t.pending ≡ some c)
      → IsReleased u c
  IsReleased-pending t u c h more same fewer = record {
    known = omega (arith, h.known, more);
    seen = elim h.seen [
      | inl (v, told) ↦ inl (v, subst (Delivered c v) (sym same) told)
      | inr (gone, silent) ↦
          inr ((λ i e. gone i (fewer i e)), λ v told. silent v (subst (Delivered c v) same told))
    ];
  }

  IsReleased-register : (t : Tracker V) (c : ℕ) → IsReleased t c → IsReleased (register t).2 c
  unfolding register
  IsReleased-register t c h =
      IsReleased-pending t (register t).2 c h (omega arith) refl
        λ i e. ground (arith, h.known, get-insert (next_id t.counter) t.channels i t.pending)

  IsReleased-forget : (id : ℕ) (t : Tracker V) (c : ℕ) → IsReleased t c → IsReleased (forget id t) c
  unfolding forget
  IsReleased-forget id t c h =
      IsReleased-pending t (forget id t) c h (omega arith) refl
        λ i e. ground (arith, get-remove id i t.pending)

  IsReleased-wait_for :
      (limit id : ℕ) (o : Outcome V) (t : Tracker V) (c : ℕ)
      → IsReleased t c
      → IsReleased (wait_for limit id o t).1 c
  unfolding wait_for
  IsReleased-wait_for limit id (received v) t c h = h
  IsReleased-wait_for limit id sender_dropped t c h = IsReleased-forget id t c h
  IsReleased-wait_for limit id elapsed t c h = IsReleased-forget id t c h

  IsReleased-resolve :
      (n : ℕ) (v : V) (t : Tracker V) (c : ℕ) → IsReleased t c → IsReleased (resolve n v t).1 c
  IsReleased-resolve n v t c h = elim (resolve_lem n v t) [
    | inl (unknown, e) ↦ subst (λ (p : Bool × Tracker V). IsReleased p.1 c) (sym e) h
    | inr (d, known, found, told, others) ↦ record {
      known = omega (arith, h.known, channels-resolve n v t);
      seen = elim h.seen [
        | inl (w, old) ↦ inl (w, subst (Delivered c w) (sym told) (inr old))
        | inr (gone, silent) ↦ inr (
          (λ i e. gone i (ground (arith, others i))),
          λ w now. elim (subst (Delivered c w) told now) [
            | inl (same, e) ↦ gone n (known ∙ ap some same)
            | inr old ↦ silent w old
          ],
        )
      ];
    }
  ]

module _ (j : SerdeJson) (to_f32 : F64 → F32) (limit : ℕ) where
  -- Any number of moves.
  pub data Moves (s : Calls j.Value) : Calls j.Value → Type 0 where
    stays : Moves s s
    moves : {t u : Calls j.Value} → Moves s t → Move j to_f32 limit t u → Moves s u

  IsReleased-answers :
      (o : Option j.Value) (t u : Tracker j.Value) (c : ℕ)
      → AnswersOwn j to_f32 o t u
      → IsReleased t c
      → IsReleased u c
  IsReleased-answers none t u c e h = subst (λ x. IsReleased x c) (sym e) h
  IsReleased-answers (some json) t u c (inl e) h = subst (λ x. IsReleased x c) (sym e) h
  IsReleased-answers (some json) t u c (inr (n, names, positive, e)) h =
      subst (λ x. IsReleased x c) (sym e) (IsReleased-resolve (as_u32 n) json t c h)

  Step-IsReleased :
      {s t : Calls j.Value} (c : ℕ)
      → Step j to_f32 limit s t
      → IsReleased s.tracker c
      → IsReleased t.tracker c
  Step-IsReleased {s} c registers h = IsReleased-register s.tracker c h
  Step-IsReleased c (sends d id build e) h = h
  Step-IsReleased c (is_refused d id e) h = h
  Step-IsReleased {s} c (routes m) h =
      IsReleased-answers (parsed j to_f32 m) s.tracker _ c (route-AnswersOwn j to_f32 m s.world) h
  Step-IsReleased {s} c (returns d id o e seen) h = IsReleased-wait_for limit id o s.tracker c h
  Step-IsReleased c (is_abandoned d id e) h = h

  Moves-IsReleased :
      {s t : Calls j.Value} (c : ℕ) → Moves s t → IsReleased s.tracker c → IsReleased t.tracker c
  Moves-IsReleased c stays h = h
  Moves-IsReleased c (moves r (steps x)) h = Step-IsReleased c x (Moves-IsReleased c r h)
  Moves-IsReleased c (moves {t} r clears) h =
      clear-IsReleased t.tracker c (Moves-IsReleased c r h).known

  waiting-known :
      {s : Calls j.Value} (c id : ℕ)
      → Reach j to_f32 limit s
      → s.status c ≡ waiting id
      → c < s.tracker.channels
  waiting-known {s} c id r e = elim (Bool-cases (ltb c s.tracker.channels)) [
    | inl low ↦ ground arith
    | inr high ↦
        absurd
          (none_ne_some (sym ((Reach-IsOwn j to_f32 limit r).fresh c (ground arith)) ∙ ap id_of e))
  ]

  -- Nobody waits in vain when the tracker is cleared at the end of a connection: a request that
  -- waits then sees its answer, or that its sender is gone, with no need of the timeout, whatever
  -- other requests, the reader and further clears do from then on.
  pub cleared-Observes :
      {s t : Calls j.Value} (c id : ℕ)
      → Reach j to_f32 limit s
      → s.status c ≡ waiting id
      → Moves (set_tracker (clear s.tracker) s) t
      → (o : Outcome j.Value) × (o ≢ elapsed) × Observes t.tracker c o
  cleared-Observes {s} c id r e more =
      let h = Moves-IsReleased c more (clear-IsReleased s.tracker c (waiting-known c id r e)) in
      elim h.seen [
        | inl (v, told) ↦ (received v, (λ q. cc), told)
        | inr gone ↦ (sender_dropped, (λ q. cc), gone)
      ]
