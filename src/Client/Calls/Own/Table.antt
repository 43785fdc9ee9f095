-- ===== src/Client/Calls/Own/Table.antt =====
-- The commands that the tracker's entries and channels belong to, under its operations.
use oxicast.Common.{
  ℕ, ◌≤◌, ◌≡◌, sym, ap, ◌∙◌, subst, Bool, none, some, ◌∷◌, ◌==◌, if◌then◌else◌, inl, inr, arith,
  Bool-cases,
}
use oxicast.Error.{ok}
use oxicast.Tracker.{Tracker, get, register, resolve, next_id}
use oxicast.Tracker.Laws.{channels-resolve, resolve_lem, get-insert}
use oxicast.Client.Calls.{Status, registered, returned, id_of, Delivered}

module _ {V : Type 0} (Names : V → ℕ → Type 0) where
  -- A pending entry is of the command that its channel belongs to; what a channel was given names its
  -- command's id, and so does what a command returned; a channel to come has no command.
  pub record IsOwn (t : Tracker V) (status : ℕ → Status V) : Type 0 where
    pub pending_own : (i c : ℕ) → get i t.pending ≡ some c → id_of (status c) ≡ some i
    pub sent_own :
        (c : ℕ) (v : V)
        → Delivered c v t.sent
        → (id : ℕ) × (id_of (status c) ≡ some id) × Names v id
    pub returned_own : (c id : ℕ) (v : V) → status c ≡ returned id (ok v) → Names v id
    pub fresh : (c : ℕ) → t.channels ≤ c → id_of (status c) ≡ none

  -- The pending table shrinks.
  pub IsOwn-shrunk :
      (t u : Tracker V) (status : ℕ → Status V)
      → IsOwn t status
      → ((i c : ℕ) → get i u.pending ≡ some c → get i t.pending ≡ some c)
      → u.sent ≡ t.sent
      → u.channels ≡ t.channels
      → IsOwn u status
  IsOwn-shrunk t u status h less same_sent same_channels = record {
    pending_own = λ i c e. h.pending_own i c (less i c e);
    sent_own = λ c v d. h.sent_own c v (subst (Delivered c v) same_sent d);
    returned_own = h.returned_own;
    fresh = λ c k. h.fresh c (omega (arith, k, same_channels));
  }

  -- A command goes on with its id.
  pub IsOwn-set_status :
      (t : Tracker V) (status : ℕ → Status V) (c : ℕ) (x : Status V)
      → IsOwn t status
      → id_of x ≡ id_of (status c)
      → ((id : ℕ) (v : V) → x ≡ returned id (ok v) → Names v id)
      → IsOwn t (λ i. if i == c then x else status i)
  IsOwn-set_status t status c x h same names = record {
    pending_own = λ i d e. same_id d ∙ h.pending_own i d e;
    sent_own = λ d v e. let (id, k, n) = h.sent_own d v e in (id, same_id d ∙ k, n);
    returned_own = λ d id v e. elim (Bool-cases (d == c)) [
      | inl q ↦ names id v (ground arith)
      | inr q ↦ h.returned_own d id v (ground arith)
    ];
    fresh = λ d k. same_id d ∙ h.fresh d k;
  }
    where
      same_id : (d : ℕ) → id_of (if d == c then x else status d) ≡ id_of (status d)
      same_id d = elim (Bool-cases (d == c)) [
        | inl q ↦
            let here : d ≡ c = ground arith in rw q (same ∙ ap (λ i. id_of (status i)) (sym here))
        | inr q ↦ rw q
      ]

  -- What another payload adds to what a channel was given.
  sent-resolve :
      (n c : ℕ) (v : V) (t : Tracker V) (status : ℕ → Status V)
      → IsOwn t status
      → get n t.pending ≡ some c
      → Names v n
      → (d : ℕ) (w : V) → Delivered d w ((c, v) ∷ t.sent)
      → (id : ℕ) × (id_of (status d) ≡ some id) × Names w id
  sent-resolve n c v t status h known names d w (inl (e, f)) = (
    n,
    subst (λ i. id_of (status i) ≡ some n) e (h.pending_own n c known),
    subst (λ x. Names x n) f names,
  )
  sent-resolve n c v t status h known names d w (inr e) = h.sent_own d w e

  pub IsOwn-resolve :
      (n : ℕ) (v : V) (t : Tracker V) (status : ℕ → Status V)
      → IsOwn t status
      → Names v n
      → IsOwn (resolve n v t).1 status
  IsOwn-resolve n v t status h names = elim (resolve_lem n v t) [
    | inl (unknown, e) ↦ subst (λ (p : Bool × Tracker V). IsOwn p.1 status) (sym e) h
    | inr (c, known, found, told, others) ↦ record {
      pending_own = λ i d e. h.pending_own i d (ground (arith, others i));
      sent_own =
          λ d w e. sent-resolve n c v t status h known names d w (subst (Delivered d w) told e);
      returned_own = h.returned_own;
      fresh = λ d k. h.fresh d (omega (arith, k, channels-resolve n v t));
    }
  ]

  -- The commands when a new one has been registered.
  abbrev with_new : (t : Tracker V) → (ℕ → Status V) → ℕ → Status V
  with_new t status i = if i == t.channels then registered (next_id t.counter) else status i

  with_new-old :
      (t : Tracker V) (status : ℕ → Status V) (c i : ℕ)
      → IsOwn t status
      → id_of (status c) ≡ some i
      → id_of (with_new t status c) ≡ some i
  with_new-old t status c i h e = elim (Bool-cases (c == t.channels)) [
    | inl q ↦ absurd (ground (arith, h.fresh c))
    | inr q ↦ rw q e
  ]

  with_new-new :
      (t : Tracker V) (status : ℕ → Status V)
      → id_of (with_new t status t.channels) ≡ some (next_id t.counter)
  with_new-new t status = ground arith

  pending-with_new :
      (t : Tracker V) (status : ℕ → Status V) (i c : ℕ)
      → IsOwn t status
      → (if next_id t.counter == i then some t.channels else get i t.pending) ≡ some c
      → id_of (with_new t status c) ≡ some i
  pending-with_new t status i c h e = elim (Bool-cases (next_id t.counter == i)) [
    | inl q ↦
        let here : t.channels ≡ c = ground arith in
        let same : next_id t.counter ≡ i = ground arith in
        subst (λ d. id_of (with_new t status d) ≡ some i) here
          (with_new-new t status ∙ ap some same)
    | inr q ↦ with_new-old t status c i h (h.pending_own i c (ground arith))
  ]

  -- A new command.
  pub IsOwn-register :
      (t : Tracker V) (status : ℕ → Status V)
      → IsOwn t status
      → let (id, c, u) = register t in IsOwn u (λ i. if i == c then registered id else status i)
  unfolding register
  IsOwn-register t status h = record {
    pending_own = λ i c e.
        pending-with_new t status i c h
          (sym (get-insert (next_id t.counter) t.channels i t.pending) ∙ e);
    sent_own =
        λ c v e. let (id, k, n) = h.sent_own c v e in (id, with_new-old t status c id h k, n);
    returned_own = λ c id v e. elim (Bool-cases (c == t.channels)) [
      | inl q ↦ absurd (ground arith)
      | inr q ↦ h.returned_own c id v (ground arith)
    ];
    fresh = λ c k. ground (arith, h.fresh c);
  }
