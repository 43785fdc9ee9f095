-- ===== src/Tracker.antt =====
-- src/client/request_tracker.rs. A tracker holds the last value of the counter, and the pending table
-- from request ids to senders. A sender is named by the number of its oneshot channel, in the order
-- of creation. `sent` logs what `tx.send` was given, newest first.
pub mod Ids
pub mod Laws
pub mod Invariant
pub mod Spec
use oxicast.Common.{
  ℕ, ◌+◌, ◌%◌, ◌^◌, Bool, true, false, Option, none, some, List, [], ◌∷◌, ◌==◌, if◌then◌else◌,
}
use oxicast.Error.{Result, ok, err, disconnected, timeout}

-- `HashMap<u32, oneshot::Sender<_>>`.
abbrev pub Pending : Type 0
Pending = List (ℕ × ℕ)

unfoldable pub get : ℕ → Pending → Option ℕ
get id [] = none
get id ((k, c) ∷ p) = if k == id then some c else get id p

unfoldable pub remove : ℕ → Pending → Pending
remove id [] = []
remove id ((k, c) ∷ p) = if k == id then remove id p else (k, c) ∷ remove id p

unfoldable pub insert : ℕ → ℕ → Pending → Pending
unfolding remove
insert id c p = (id, c) ∷ remove id p

pub record Tracker (V : Type 0) : Type 0 where
  pub counter : ℕ
  pub pending : Pending
  pub channels : ℕ
  pub sent : List (ℕ × V)

-- `fetch_add(1).wrapping_add(1)`: the new value of the counter, which is also the id.
abbrev pub bump : ℕ → ℕ
bump counter = (counter + 1) % 2 ^ 32

-- The id that `register` allocates, and the counter after it.
unfoldable pub next_id : ℕ → ℕ
next_id counter = if bump counter == 0 then bump (bump counter) else bump counter

-- What `tokio::time::timeout(self.timeout, rx).await` comes to.
pub data Outcome (V : Type 0) : Type 0 where
  received : V → Outcome V
  sender_dropped elapsed : Outcome V

module _ {V : Type 0} where
  unfoldable pub new : Tracker V
  new = record { counter = 0; pending = []; channels = 0; sent = [] }

  -- The id, the receiver's channel, and the tracker.
  unfoldable pub register : Tracker V → ℕ × ℕ × Tracker V
  unfolding next_id insert
  register t =
      let id = next_id t.counter in
      (
        id,
        t.channels,
        record t {
          counter = id;
          pending = insert id t.channels t.pending;
          channels = t.channels + 1;
        },
      )

  unfoldable pub deliver : Option ℕ → ℕ → V → Tracker V → Bool × Tracker V
  deliver none id payload t = (false, t)
  deliver (some c) id payload t =
      (true, record t { pending = remove id t.pending; sent = (c, payload) ∷ t.sent })

  unfoldable pub resolve : ℕ → V → Tracker V → Bool × Tracker V
  unfolding deliver get remove
  resolve id payload t = deliver (get id t.pending) id payload t

  -- `self.pending.lock().await.remove(&request_id)` in `wait_for`.
  unfoldable pub forget : ℕ → Tracker V → Tracker V
  unfolding remove
  forget id t = record t { pending = remove id t.pending }

  unfoldable pub wait_for : (timeout : ℕ) → ℕ → Outcome V → Tracker V → Result V × Tracker V
  unfolding forget
  wait_for limit id (received v) t = (ok v, t)
  wait_for limit id sender_dropped t = (err disconnected, forget id t)
  wait_for limit id elapsed t = (err (timeout limit), forget id t)

  unfoldable pub clear : Tracker V → Tracker V
  clear t = record t { pending = [] }
