-- ===== src/Discovery/Reference.antt =====
-- What the scans find, as against a definition without a loop or a set: of the services heard, the
-- first one at each address.
use oxicast.Common.{
  ℕ, ◌+◌, ◌≡◌, refl, ◌∙◌, ap, sym, true, Option, none, some, List, [], ◌∷◌, ◌++◌, ltb,
  if◌then◌else◌, option_map, filter_map, contains, Bool-cases, inl, inr, arith,
}
use mathlib.Core.List.{append-nil, append_assoc}
use oxicast.Error.{ok}
use oxicast.Types.{DeviceInfo, IpAddr, v4, v6}
use oxicast.Discovery.{
  Service, Received, resolved, other, failed, Round, Scan, Mdns, begin, ip_eq, is_seen,
  first_address, device_at, empty_scan, push, on_resolved, on_received, follow, scan,
  blocking_round, discover_blocking,
}

-- The services resolved before the deadline and before an error other than a timeout.
abbrev pub heard_from : List Service → Received → List Service
heard_from rest (resolved info) = info ∷ rest
heard_from rest other = rest
heard_from rest (failed text) = if contains text "Timeout" then rest else []

unfoldable pub heard : ℕ → List Round → List Service
heard deadline [] = []
heard deadline (r ∷ rounds) =
    let rest = heard deadline rounds in
    if ltb r.now deadline then heard_from rest r.received else []

-- A service without an IPv4 address is no device.
abbrev pub device_of : Service → Option DeviceInfo
device_of info = option_map (device_at info) (first_address info)

-- The devices at other addresses.
unfoldable pub without : IpAddr → List DeviceInfo → List DeviceInfo
without ip [] = []
without ip (d ∷ ds) = if ip_eq d.ip ip then without ip ds else d ∷ without ip ds

unfoldable pub first_by_ip : List DeviceInfo → List DeviceInfo
unfolding without
first_by_ip [] = []
first_by_ip (d ∷ ds) = d ∷ without d.ip (first_by_ip ds)

abbrev pub found : ℕ → List Round → List DeviceInfo
found deadline rounds = first_by_ip (filter_map device_of (heard deadline rounds))

unseen : List IpAddr → List DeviceInfo → List DeviceInfo
unfolding is_seen
unseen seen [] = []
unseen seen (d ∷ ds) = if is_seen d.ip seen then unseen seen ds else d ∷ unseen seen ds

ip_eq-eq : (a b : IpAddr) → ip_eq a b ≡ true → a ≡ b
ip_eq-eq (v4 a) (v4 b) h = ground arith
ip_eq-eq (v4 a) (v6 b) h = cc
ip_eq-eq (v6 a) (v4 b) h = cc
ip_eq-eq (v6 a) (v6 b) h = ground arith

unseen-without_seen :
    (ip : IpAddr) (seen : List IpAddr) (ds : List DeviceInfo)
    → is_seen ip seen ≡ true
    → unseen seen (without ip ds) ≡ unseen seen ds
unfolding unseen without
unseen-without_seen ip seen [] h = refl
unseen-without_seen ip seen (d ∷ ds) h = elim (Bool-cases (ip_eq d.ip ip)) [
  | inl e ↦
      let same : is_seen d.ip seen ≡ true = ap (λ i. is_seen i seen) (ip_eq-eq d.ip ip e) ∙ h in
      rw (e, same) (unseen-without_seen ip seen ds h)
  | inr e ↦ ground (arith, unseen-without_seen ip seen ds h)
]

unseen-without :
    (ip : IpAddr) (seen : List IpAddr) (ds : List DeviceInfo)
    → unseen (ip ∷ seen) ds ≡ unseen seen (without ip ds)
unfolding unseen without
unseen-without ip seen [] = refl
unseen-without ip seen (d ∷ ds) = ground (arith, unseen-without ip seen ds)

unseen-nil : (ds : List DeviceInfo) → unseen [] ds ≡ ds
unfolding unseen
unseen-nil [] = refl
unseen-nil (d ∷ ds) = ap (◌∷◌ d) (unseen-nil ds)

-- The device at an address, if there is one, before the later ones at other addresses.
abbrev with_device : Service → Option IpAddr → List DeviceInfo → List DeviceInfo
with_device info none later = later
with_device info (some ip) later = device_at info ip ∷ without ip later

found_lem :
    (info : Service) (infos : List Service)
    → first_by_ip (filter_map device_of (info ∷ infos))
      ≡ with_device info (first_address info) (first_by_ip (filter_map device_of infos))
unfolding first_by_ip
found_lem info infos =
    elim (first_address info)
      as (λ o.
        first_by_ip (elim (option_map (device_at info) o) [
          | none ↦ filter_map device_of infos
          | some d ↦ d ∷ filter_map device_of infos
        ])
        ≡ with_device info o (first_by_ip (filter_map device_of infos))) [
          | none ↦ refl
          | some ip ↦ refl
        ]

-- What a round does whose service is at this address, or at none.
on_resolved-found :
    (info : Service) (o : Option IpAddr) (s : Scan) (next : Scan → Scan) (later : List DeviceInfo)
    → ((t : Scan) → (next t).devices ≡ t.devices ++ unseen t.seen later)
    → (follow next (on_resolved push info o s)).devices
      ≡ s.devices ++ unseen s.seen (with_device info o later)
unfolding unseen
on_resolved-found info none s next later ih = ih s
on_resolved-found info (some ip) s next later ih = elim (Bool-cases (is_seen ip s.seen)) [
  | inl e ↦ rw e (ih s ∙ ap (λ ds. s.devices ++ ds) (sym (unseen-without_seen ip s.seen later e)))
  | inr e ↦
      let d = device_at info ip in
      rw e (
        ih (record { seen = ip ∷ s.seen; devices = s.devices ++ d ∷ [] })
        ∙ append_assoc s.devices (d ∷ []) (unseen (ip ∷ s.seen) later)
        ∙ ap (λ ds. s.devices ++ d ∷ ds) (unseen-without ip s.seen later))
]

nothing : (s : Scan) → s.devices ≡ s.devices ++ unseen s.seen (first_by_ip [])
unfolding unseen first_by_ip
nothing s = sym (append-nil s.devices)

on_received-found :
    (received : Received) (s : Scan) (next : Scan → Scan) (infos : List Service)
    → ((t : Scan)
        → (next t).devices ≡ t.devices ++ unseen t.seen (first_by_ip (filter_map device_of infos)))
    → (follow next (on_received push received s)).devices
      ≡ s.devices ++ unseen s.seen (first_by_ip (filter_map device_of (heard_from infos received)))
on_received-found (resolved info) s next infos ih =
    rw (found_lem info infos) (on_resolved-found info (first_address info) s next _ ih)
on_received-found other s next infos ih = ih s
on_received-found (failed text) s next infos ih = elim (Bool-cases (contains text "Timeout")) [
  | inl e ↦ rw e (ih s)
  | inr e ↦ rw e (nothing s)
]

scan-found :
    (deadline : ℕ) (rounds : List Round) (s : Scan)
    → (scan deadline blocking_round rounds s).devices
      ≡ s.devices ++ unseen s.seen (found deadline rounds)
unfolding scan blocking_round heard
scan-found deadline [] s = nothing s
scan-found deadline (r ∷ rounds) s = elim (Bool-cases (ltb r.now deadline)) [
  | inl e ↦ rw e (
      on_received-found r.received s (scan deadline blocking_round rounds) (heard deadline rounds)
        (scan-found deadline rounds))
  | inr e ↦ rw e (nothing s)
]

-- If the daemon starts, the blocking scan collects, for the services heard before the deadline and
-- before an error other than a timeout, the first device at each IPv4 address, in order.
pub discover_blocking_lem :
    (m : Mdns) (start timeout : ℕ) (rounds : List Round)
    → begin m ≡ ok tt
    → discover_blocking m start timeout rounds ≡ ok (found (start + timeout) rounds)
unfolding discover_blocking
discover_blocking_lem m start timeout rounds h =
    rw h (ap ok (scan-found (start + timeout) rounds empty_scan ∙ unseen-nil _))

-- The devices of a scan go on from those before it.
pub scan-extends :
    (deadline : ℕ) (rounds : List Round) (s : Scan)
    → (es : List DeviceInfo) × ((scan deadline blocking_round rounds s).devices ≡ s.devices ++ es)
scan-extends deadline rounds s =
    (unseen s.seen (found deadline rounds), scan-found deadline rounds s)
