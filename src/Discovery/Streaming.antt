-- ===== src/Discovery/Streaming.antt =====
-- The streaming scan as against the blocking one.
use oxicast.Common.{
  ℕ, ◌+◌, ◌≡◌, refl, ◌∙◌, sym, Bool, true, false, Option, none, some, List, [], ◌∷◌, ◌++◌, ltb,
  Bool-cases, inl, inr, All, contains,
}
use mathlib.Core.List.{append-nil, append_assoc}
use oxicast.Error.{ok}
use oxicast.Types.{DeviceInfo, IpAddr}
use oxicast.Discovery.{
  Service, Received, resolved, other, failed, Round, Scan, Flow, continues, breaks, Mdns, begin,
  is_seen, first_address, device_at, empty_scan, push, send, on_resolved, on_received, follow, scan,
  blocking_round, streaming_round, discover_blocking, discover,
}
use oxicast.Discovery.Reference.{scan-extends}

abbrev pub Extends : List DeviceInfo → List DeviceInfo → Type 0
Extends more ds = (es : List DeviceInfo) × (more ≡ ds ++ es)

-- The receiver never drops its end.
abbrev pub AllAccepted : List Round → Type 0
AllAccepted rounds = All (λ (r : Round). r.accepted ≡ true) rounds

follow_same :
    (next next' : Scan → Scan) (flow : Flow)
    → ((s : Scan) → next s ≡ next' s)
    → follow next flow ≡ follow next' flow
follow_same next next' (continues s) h = h s
follow_same next next' (breaks s) h = refl

streaming_round-blocking :
    (r : Round) (s : Scan) → r.accepted ≡ true → streaming_round r s ≡ blocking_round r s
unfolding streaming_round blocking_round
streaming_round-blocking r s h = rw h

scan_same :
    (deadline : ℕ) (rounds : List Round) (s : Scan)
    → AllAccepted rounds
    → scan deadline streaming_round rounds s ≡ scan deadline blocking_round rounds s
unfolding scan
scan_same deadline [] s h = refl
scan_same deadline (r ∷ rounds) s h = elim (Bool-cases (ltb r.now deadline)) [
  | inl e ↦
      rw (e, streaming_round-blocking r s h.0)
        (follow_same _ _ (blocking_round r s) (λ t. scan_same deadline rounds t h.1))
  | inr e ↦ rw e
]

-- A refused device ends the streaming scan, and is the next one that the blocking scan collects.
on_resolved-Extends :
    (accepted : Bool) (info : Service) (o : Option IpAddr) (s : Scan) (next next' : Scan → Scan)
    → ((t : Scan) → Extends (next' t).devices (next t).devices)
    → ((t : Scan) → Extends (next' t).devices t.devices)
    → Extends
        (follow next' (on_resolved push info o s)).devices
        (follow next (on_resolved (send accepted) info o s)).devices
on_resolved-Extends accepted info none s next next' h k = h s
on_resolved-Extends true info (some ip) s next next' h k = elim (Bool-cases (is_seen ip s.seen)) [
  | inl e ↦ rw e (h s)
  | inr e ↦ rw e (h (record { seen = ip ∷ s.seen; devices = s.devices ++ device_at info ip ∷ [] }))
]
on_resolved-Extends false info (some ip) s next next' h k = elim (Bool-cases (is_seen ip s.seen)) [
  | inl e ↦ rw e (h s)
  | inr e ↦
      let d = device_at info ip in
      let (es, f) = k (record { seen = ip ∷ s.seen; devices = s.devices ++ d ∷ [] }) in
      rw e (d ∷ es, f ∙ append_assoc s.devices (d ∷ []) es)
]

on_received-Extends :
    (accepted : Bool) (received : Received) (s : Scan) (next next' : Scan → Scan)
    → ((t : Scan) → Extends (next' t).devices (next t).devices)
    → ((t : Scan) → Extends (next' t).devices t.devices)
    → Extends
        (follow next' (on_received push received s)).devices
        (follow next (on_received (send accepted) received s)).devices
on_received-Extends accepted (resolved info) s next next' h k =
    on_resolved-Extends accepted info (first_address info) s next next' h k
on_received-Extends accepted other s next next' h k = h s
on_received-Extends accepted (failed text) s next next' h k =
    elim (Bool-cases (contains text "Timeout")) [
      | inl e ↦ rw e (h s)
      | inr e ↦ rw e ([], sym (append-nil s.devices))
    ]

scan-Extends :
    (deadline : ℕ) (rounds : List Round) (s : Scan)
    → Extends
        (scan deadline blocking_round rounds s).devices
        (scan deadline streaming_round rounds s).devices
unfolding scan streaming_round blocking_round
scan-Extends deadline [] s = ([], sym (append-nil s.devices))
scan-Extends deadline (r ∷ rounds) s = elim (Bool-cases (ltb r.now deadline)) [
  | inl e ↦ rw e (
      on_received-Extends r.accepted r.received s (scan deadline streaming_round rounds)
        (scan deadline blocking_round rounds) (scan-Extends deadline rounds)
        (λ t. scan-extends deadline rounds t))
  | inr e ↦ rw e ([], sym (append-nil s.devices))
]

-- The streaming scan gives the devices of the blocking one, if its receiver takes every device;
-- otherwise, once the daemon has started, it gives the first of them.
pub discover-discover_blocking :
    (m : Mdns) (start timeout : ℕ) (rounds : List Round)
    → (AllAccepted rounds
        → discover m start timeout rounds ≡ discover_blocking m start timeout rounds)
      × (begin m ≡ ok tt
          → (ds : List DeviceInfo) × (more : List DeviceInfo) × (discover m start timeout rounds
              ≡ ok ds)
            × (discover_blocking m start timeout rounds ≡ ok more)
            × Extends more ds)
unfolding discover discover_blocking
discover-discover_blocking m start timeout rounds = (
  (λ h. rw (scan_same (start + timeout) rounds empty_scan h)),
  (λ e. (
    (scan (start + timeout) streaming_round rounds empty_scan).devices,
    (scan (start + timeout) blocking_round rounds empty_scan).devices,
    rw e,
    rw e,
    scan-Extends (start + timeout) rounds empty_scan,
  )),
)
