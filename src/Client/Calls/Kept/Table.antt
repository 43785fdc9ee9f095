-- ===== src/Client/Calls/Kept/Table.antt =====
-- The ids that the tracker gives out, and the commands that it keeps, under its operations.
use oxicast.Common.{
  ℕ, ◌<◌, ◌≤◌, ◌+◌, ◌%◌, ◌^◌, ◌≡◌, ◌≢◌, refl, sym, ap, ◌∙◌, subst, Bool, Option, none, some, ◌==◌,
  if◌then◌else◌, ◌⊎◌, inl, inr, arith, Bool-cases,
}
use oxicast.Tracker.{Tracker, get, register, resolve, forget, next_id}
use oxicast.Tracker.Laws.{counter-resolve, channels-resolve, resolve_lem, get-remove, get-insert}
use oxicast.Tracker.Ids.{next_id_lem, next_id_bounds}
use oxicast.Client.Calls.{Status, unstarted, registered, waiting, abandoned, returned, Delivered}

-- The ids that there are.
abbrev pub id_count : ℕ
id_count = 4294967295

same_some : {a b : ℕ} → some a ≡ some b → a ≡ b
same_some e = ground arith

pub none_ne_some : {a : ℕ} → none ≢ some a
none_ne_some e = cc

module _ {V : Type 0} where
  -- The id of a command that has not returned.
  abbrev pub active_id : Status V → Option ℕ
  active_id unstarted = none
  active_id (registered id) = some id
  active_id (waiting id) = some id
  active_id (abandoned id) = some id
  active_id (returned id r) = none

  -- The command is pending under the id, or its answer is there.
  abbrev pub IsServed : Tracker V → (c id : ℕ) → Type 0
  IsServed t c id = (get id t.pending ≡ some c) ⊎ ((v : V) × Delivered c v t.sent)

  -- The counter goes along with the channels, and so does a command's id; an active one is served.
  pub record IsKept (t : Tracker V) (status : ℕ → Status V) : Type 0 where
    pub bounded : t.counter < 2 ^ 32
    pub in_step : next_id t.counter ≡ t.channels % id_count + 1
    pub numbered :
        (c id : ℕ) → active_id (status c) ≡ some id → (c < t.channels) × (id ≡ c % id_count + 1)
    pub served :
        t.channels ≤ id_count → (c id : ℕ) → active_id (status c) ≡ some id → IsServed t c id

  -- The status of a command after another's, or its own, has been set.
  status_cases :
      (status : ℕ → Status V) (c : ℕ) (x : Status V) (d : ℕ)
      → let y = if d == c then x else status d in ((d ≡ c) × (y ≡ x)) ⊎ ((d ≢ c) × (y ≡ status d))
  status_cases status c x d = elim (Bool-cases (d == c)) [
    | inl q ↦ inl (ground arith, rw q)
    | inr q ↦ inr (ground arith, rw q)
  ]

  IsServed-resolve :
      (n : ℕ) (v : V) (t : Tracker V) (c id : ℕ) → IsServed t c id → IsServed (resolve n v t).1 c id
  IsServed-resolve n v t c id h = elim (resolve_lem n v t) [
    | inl (unknown, e) ↦ subst (λ (p : Bool × Tracker V). IsServed p.1 c id) (sym e) h
    | inr (d, known, found, told, others) ↦ elim h [
      | inl waits ↦ elim (Bool-cases (n == id)) [
        | inl q ↦
            let same : n ≡ id = ground arith in
            let here : d ≡ c = same_some (sym known ∙ ap (λ i. get i t.pending) same ∙ waits) in
            inr (v, subst (Delivered c v) (sym told) (inl (here, refl)))
        | inr q ↦ inl (others id ∙ rw q waits)
      ]
      | inr (w, answered) ↦ inr (w, subst (Delivered c w) (sym told) (inr answered))
    ]
  ]

  pub IsKept-resolve :
      (n : ℕ) (v : V) (t : Tracker V) (status : ℕ → Status V)
      → IsKept t status
      → IsKept (resolve n v t).1 status
  IsKept-resolve n v t status h = record {
    bounded = omega (arith, h.bounded, counter-resolve n v t);
    in_step =
        ap next_id (counter-resolve n v t)
        ∙ h.in_step
        ∙ ap (λ x. x % id_count + 1) (sym (channels-resolve n v t));
    numbered = λ c id e.
        let (low, same) = h.numbered c id e in (omega (arith, low, channels-resolve n v t), same);
    served = λ few c id e.
        IsServed-resolve n v t c id (h.served (omega (arith, few, channels-resolve n v t)) c id e);
  }

  -- A command that goes on, or comes to an end.
  pub IsKept-set_status :
      (t : Tracker V) (status : ℕ → Status V) (c : ℕ) (x : Status V)
      → IsKept t status
      → (active_id x ≡ active_id (status c)) ⊎ (active_id x ≡ none)
      → IsKept t (λ i. if i == c then x else status i)
  IsKept-set_status t status c x h on = record {
    bounded = h.bounded;
    in_step = h.in_step;
    numbered = λ d id e. h.numbered d id (was d id e);
    served = λ few d id e. h.served few d id (was d id e);
  }
    where
      was :
          (d id : ℕ)
          → active_id (if d == c then x else status d) ≡ some id
          → active_id (status d) ≡ some id
      was d id e = elim (status_cases status c x d) [
        | inl (here, y) ↦ elim on [
          | inl same ↦ ap (λ i. active_id (status i)) here ∙ sym same ∙ ap active_id (sym y) ∙ e
          | inr over ↦ absurd (none_ne_some (sym over ∙ ap active_id (sym y) ∙ e))
        ]
        | inr (there, y) ↦ ap active_id (sym y) ∙ e
      ]

  -- The entry of a command that comes to an end.
  pub IsKept-forget :
      (t : Tracker V) (status : ℕ → Status V) (c id : ℕ) (x : Status V)
      → IsKept t status
      → active_id (status c) ≡ some id
      → active_id x ≡ none
      → IsKept (forget id t) (λ i. if i == c then x else status i)
  unfolding forget
  IsKept-forget t status c id x h was over = record {
    bounded = h.bounded;
    in_step = h.in_step;
    numbered = λ d i e. h.numbered d i (other d i e).1;
    served = λ few d i e.
        let (differ, now) = other d i e in
        let (low, number) = h.numbered d i now in
        let (low', number') = h.numbered c id was in
        let unlike : id ≢ i = λ q. differ (omega (arith, few, low, low', number, number', q)) in
        elim (h.served few d i now) [
          | inl waits ↦ inl (ground (arith, unlike, get-remove id i t.pending))
          | inr answered ↦ inr answered
        ];
  }
    where
      other :
          (d i : ℕ)
          → active_id (if d == c then x else status d) ≡ some i
          → (d ≢ c) × (active_id (status d) ≡ some i)
      other d i e = elim (status_cases status c x d) [
        | inl (here, y) ↦ absurd (none_ne_some (sym over ∙ ap active_id (sym y) ∙ e))
        | inr (there, y) ↦ (there, ap active_id (sym y) ∙ e)
      ]

  pub IsKept-register :
      (t : Tracker V) (status : ℕ → Status V)
      → IsKept t status
      → let (id, c, u) = register t in IsKept u (λ i. if i == c then registered id else status i)
  unfolding register
  IsKept-register t status h = record {
    bounded = (next_id_bounds t.counter h.bounded).1;
    in_step =
        omega (
          arith,
          h.in_step,
          next_id_lem (next_id t.counter) (next_id_bounds t.counter h.bounded).1,
        );
    numbered = λ d i e. elim (status_cases status t.channels (registered (next_id t.counter)) d) [
      | inl (here, y) ↦
          let same : next_id t.counter ≡ i = same_some (ap active_id (sym y) ∙ e) in
          (omega (arith, here), omega (arith, here, same, h.in_step))
      | inr (there, y) ↦
          let (low, number) = h.numbered d i (ap active_id (sym y) ∙ e) in
          (omega (arith, low), number)
    ];
    served = λ few d i e. elim (status_cases status t.channels (registered (next_id t.counter)) d) [
      | inl (here, y) ↦
          let same : next_id t.counter ≡ i = same_some (ap active_id (sym y) ∙ e) in
          inl (ground (arith, here, same, get-insert (next_id t.counter) t.channels i t.pending))
      | inr (there, y) ↦
          let now = ap active_id (sym y) ∙ e in
          let (low, number) = h.numbered d i now in
          let unlike : next_id t.counter ≢ i =
            λ q. absurd (omega (arith, few, low, number, h.in_step, q)) in
          elim (h.served (omega (arith, few)) d i now) [
            | inl waits ↦
                inl (ground (arith, unlike, get-insert (next_id t.counter) t.channels i t.pending))
            | inr answered ↦ inr answered
          ]
    ];
  }
