-- ===== src/Tracker/Laws.antt =====
-- What each operation of the tracker does to the pending table, on every branch.
use oxicast.Common.{
  ℕ, ◌+◌, ◌≡◌, refl, true, false, none, some, [], ◌∷◌, ◌==◌, if◌then◌else◌, arith, ◌⊎◌, inl, inr,
  Option-cases,
}
use oxicast.Error.{ok, err, disconnected, timeout}
use oxicast.Tracker.{
  Pending, Tracker, Outcome, received, sender_dropped, elapsed, get, remove, insert, register,
  resolve, deliver, forget, wait_for, clear, next_id,
}

pub get-remove :
    (id i : ℕ) (p : Pending) → get i (remove id p) ≡ (if id == i then none else get i p)
unfolding get remove
get-remove id i [] = ground arith
get-remove id i ((k, c) ∷ p) = ground (arith, get-remove id i p)

pub get-insert :
    (id c i : ℕ) (p : Pending) → get i (insert id c p) ≡ (if id == i then some c else get i p)
unfolding get insert
get-insert id c i p = ground (arith, get-remove id i p)

module _ {V : Type 0} where
  -- `register` makes the new id wait on a fresh channel, and leaves every other id as it was.
  pub register_lem :
      (t : Tracker V) (i : ℕ)
      → let (id, c, u) = register t in
        (get i u.pending ≡ (if id == i then some c else get i t.pending))
        × (c ≡ t.channels)
        × (u.sent ≡ t.sent)
  unfolding register
  register_lem t i = (get-insert _ t.channels i t.pending, refl, refl)

  pub resolve-unknown :
      (id : ℕ) (v : V) (t : Tracker V) → get id t.pending ≡ none → resolve id v t ≡ (false, t)
  unfolding resolve deliver
  resolve-unknown id v t e = ground arith

  -- `resolve` says whether the id was pending; if it was, its channel gets the payload and that id
  -- alone is removed; if not, nothing changes.
  pub resolve_lem :
      (id : ℕ) (v : V) (t : Tracker V)
      → ((get id t.pending ≡ none) × (resolve id v t ≡ (false, t)))
        ⊎ ((c : ℕ) × (get id t.pending ≡ some c)
            × ((resolve id v t).0 ≡ true)
            × ((resolve id v t).1.sent ≡ (c, v) ∷ t.sent)
            × ((i : ℕ)
                → get i (resolve id v t).1.pending ≡ (if id == i then none else get i t.pending)))
  unfolding resolve deliver
  resolve_lem id v t = elim (Option-cases (get id t.pending)) [
    | inl e ↦ inl (e, ground arith)
    | inr (c, e) ↦
        inr (c, e, ground arith, ground arith, λ i. ground (arith, get-remove id i t.pending))
  ]

  -- A response to a request just registered is delivered to that request's channel, and a second
  -- response to it finds nobody and changes nothing.
  pub resolve-register :
      (t : Tracker V) (v w : V)
      → let (id, c, u) = register t in
        let (found, after) = resolve id v u in
        (found ≡ true) × (after.sent ≡ (c, v) ∷ t.sent) × (resolve id w after ≡ (false, after))
  unfolding register resolve deliver
  resolve-register t v w =
      let id = (register t).0 in
      ground (
        arith,
        get-insert id t.channels id t.pending,
        get-remove id id (insert id t.channels t.pending),
      )

  -- A wait that received a response returns it and leaves the table alone; one whose sender was
  -- dropped fails with `Disconnected`, and one that ran out of time with `Timeout`, each removing
  -- its own entry and no other.
  pub wait_for_lem :
      (limit id : ℕ) (o : Outcome V) (t : Tracker V)
      → let (r, u) = wait_for limit id o t in
        ((v : V) × (o ≡ received v) × (r ≡ ok v) × (u ≡ t))
        ⊎ (((o ≡ sender_dropped) × (r ≡ err disconnected))
            ⊎ ((o ≡ elapsed) × (r ≡ err (timeout limit))))
          × (u.sent ≡ t.sent)
          × ((i : ℕ) → get i u.pending ≡ (if id == i then none else get i t.pending))
  unfolding wait_for forget
  wait_for_lem limit id (received v) t = inl (v, refl, refl, refl)
  wait_for_lem limit id sender_dropped t =
      inr (inl (refl, refl), refl, λ i. get-remove id i t.pending)
  wait_for_lem limit id elapsed t = inr (inr (refl, refl), refl, λ i. get-remove id i t.pending)

  -- After `clear` no response finds a request.
  pub resolve-clear : (t : Tracker V) (id : ℕ) (v : V) → resolve id v (clear t) ≡ (false, clear t)
  unfolding resolve clear deliver get
  resolve-clear t id v = refl

  pub counter-resolve : (id : ℕ) (v : V) (t : Tracker V) → (resolve id v t).1.counter ≡ t.counter
  unfolding resolve deliver
  counter-resolve id v t = ground arith

  pub channels-resolve : (id : ℕ) (v : V) (t : Tracker V) → (resolve id v t).1.channels ≡ t.channels
  unfolding resolve deliver
  channels-resolve id v t = ground arith

  pub register-channels : (t : Tracker V) → (register t).2.channels ≡ t.channels + 1
  unfolding register
  register-channels t = omega arith

  pub register-next_id : (t : Tracker V) → (register t).0 ≡ next_id t.counter
  unfolding register
  register-next_id t = refl

  pub register-get :
      (t : Tracker V) → get (next_id t.counter) (register t).2.pending ≡ some t.channels
  unfolding register
  register-get t =
      ground (arith, get-insert (next_id t.counter) t.channels (next_id t.counter) t.pending)

  -- A wait that fails reports why, and its own entry is gone.
  pub wait_for-failed :
      (limit id : ℕ) (t : Tracker V)
      → ((wait_for limit id sender_dropped t).0 ≡ err disconnected)
        × ((wait_for limit id elapsed t).0 ≡ err (timeout limit))
        × (get id (wait_for limit id sender_dropped t).1.pending ≡ none)
        × (get id (wait_for limit id elapsed t).1.pending ≡ none)
  unfolding wait_for forget
  wait_for-failed limit id t = (
    refl,
    refl,
    ground (arith, get-remove id id t.pending),
    ground (arith, get-remove id id t.pending),
  )

  pub wait_for-received :
      (limit id : ℕ) (v : V) (t : Tracker V) → wait_for limit id (received v) t ≡ (ok v, t)
  unfolding wait_for
  wait_for-received limit id v t = refl
