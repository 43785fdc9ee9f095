-- ===== src/Client/Life/Recovery/Loop.antt =====
-- What the loop over the attempts comes to.
use oxicast.Common.{ℕ, ◌≤◌, ◌<◌, ◌≡◌, ◌≢◌, ◌⊎◌, Bool, true, false}
use oxicast.Client.Life.{Life}
use oxicast.Client.Life.Recovery.{Network, reachable, IsRecovered, HasGivenUp}

-- The first network of the attempts that is reachable, or that there is none.
abbrev pub FirstReachable : (ℕ → Network) → (attempt k : ℕ) → Type 0
FirstReachable network attempt k =
    (attempt ≤ k)
    × (network k ≡ reachable)
    × ((i : ℕ) → attempt ≤ i → i < k → network i ≢ reachable)

abbrev pub NoneReachable : (ℕ → Network) → (attempt end : ℕ) → Type 0
NoneReachable network attempt end = (i : ℕ) → attempt ≤ i → i < end → network i ≢ reachable

-- What the loop comes to.
abbrev pub Comes : (ℕ → Network) → (attempt end : ℕ) → Bool × Life → Type 0
Comes network attempt end (goes_on, s) =
    ((k : ℕ) × (k < end) × FirstReachable network attempt k × (goes_on ≡ true) × IsRecovered s)
    ⊎ (NoneReachable network attempt end × (goes_on ≡ false) × HasGivenUp s)
