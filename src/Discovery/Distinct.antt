-- ===== src/Discovery/Distinct.antt =====
-- No device is found twice.
use oxicast.Common.{ℕ, ◌+◌, ◌≡◌, false, List, [], ◌∷◌, Bool-cases, inl, inr, All}
use oxicast.Error.{ok}
use oxicast.Types.{DeviceInfo, IpAddr}
use oxicast.Discovery.{Round, Mdns, begin, ip_eq, discover_blocking}
use oxicast.Discovery.Reference.{without, first_by_ip, found, discover_blocking_lem}

abbrev pub Elsewhere : IpAddr → DeviceInfo → Type 0
Elsewhere ip d = ip_eq d.ip ip ≡ false

-- Each device is at another address than those before it.
abbrev pub Distinct : List DeviceInfo → Type 0
Distinct [] = Unit
Distinct (d ∷ ds) = All (Elsewhere d.ip) ds × Distinct ds

All-without :
    (P : DeviceInfo → Type 0) (ip : IpAddr) (ds : List DeviceInfo)
    → All P ds
    → All P (without ip ds)
unfolding without
All-without P ip [] h = tt
All-without P ip (d ∷ ds) h = elim (Bool-cases (ip_eq d.ip ip)) [
  | inl e ↦ rw e (All-without P ip ds h.1)
  | inr e ↦ rw e (h.0, All-without P ip ds h.1)
]

without-Elsewhere : (ip : IpAddr) (ds : List DeviceInfo) → All (Elsewhere ip) (without ip ds)
unfolding without
without-Elsewhere ip [] = tt
without-Elsewhere ip (d ∷ ds) = elim (Bool-cases (ip_eq d.ip ip)) [
  | inl e ↦ rw e (without-Elsewhere ip ds)
  | inr e ↦ rw e (e, without-Elsewhere ip ds)
]

without-Distinct : (ip : IpAddr) (ds : List DeviceInfo) → Distinct ds → Distinct (without ip ds)
unfolding without
without-Distinct ip [] h = tt
without-Distinct ip (d ∷ ds) h = elim (Bool-cases (ip_eq d.ip ip)) [
  | inl e ↦ rw e (without-Distinct ip ds h.1)
  | inr e ↦ rw e (All-without (Elsewhere d.ip) ip ds h.0, without-Distinct ip ds h.1)
]

first_by_ip-Distinct : (ds : List DeviceInfo) → Distinct (first_by_ip ds)
unfolding first_by_ip
first_by_ip-Distinct [] = tt
first_by_ip-Distinct (d ∷ ds) = (
  without-Elsewhere d.ip (first_by_ip ds),
  without-Distinct d.ip (first_by_ip ds) (first_by_ip-Distinct ds),
)

-- If the daemon starts, the blocking scan succeeds, and no two of its devices are at one address.
pub discover_blocking-Distinct :
    (m : Mdns) (start timeout : ℕ) (rounds : List Round)
    → begin m ≡ ok tt
    → (ds : List DeviceInfo) × (discover_blocking m start timeout rounds ≡ ok ds) × Distinct ds
discover_blocking-Distinct m start timeout rounds h = (
  found (start + timeout) rounds,
  discover_blocking_lem m start timeout rounds h,
  first_by_ip-Distinct _,
)
