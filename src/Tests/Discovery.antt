-- ===== src/Tests/Discovery.antt =====
-- Runs of the scans.
use oxicast.Common.{ℕ, ◌≡◌, refl, String, true, false, none, List, [], ◌∷◌}
use oxicast.Error.{ok}
use oxicast.Types.{DeviceInfo, v4}
use oxicast.Discovery.{
  Service, Round, Mdns, resolved, other, failed, begin, discover, discover_blocking, scan, is_seen,
  blocking_round, streaming_round,
}
use oxicast.Discovery.Reference.{found, heard, without, first_by_ip, discover_blocking_lem}
use oxicast.Discovery.Streaming.{Extends, AllAccepted, discover-discover_blocking}

discovery : Unit {0}
unfolding discover discover_blocking scan is_seen blocking_round streaming_round heard without
    first_by_ip
discovery = tt

abbrev service : List ℕ → String → Service
service addresses name = record {
  addresses = addresses;
  property = λ key. none;
  fullname = name;
  port = 8009;
}

abbrev device : ℕ → String → DeviceInfo
device a name = record { name = name; ip = v4 a; port = 8009; model = none; uuid = none }

abbrev running : Mdns
running = record { daemon = true; browse = true }

-- The kitchen is heard twice, one service has no IPv4 address, a timeout passes, and the receiver of the
-- stream is gone when the bath is sent; the last round comes too late.
abbrev rounds : List Round
rounds =
    record { now = 1; received = resolved (service (11 ∷ []) "kitchen"); accepted = true }
    ∷ record { now = 2; received = other; accepted = true }
    ∷ record { now = 3; received = resolved (service [] "hall"); accepted = true }
    ∷ record { now = 4; received = resolved (service (11 ∷ 12 ∷ []) "kitchen"); accepted = true }
    ∷ record { now = 5; received = failed "Timeout"; accepted = true }
    ∷ record { now = 6; received = resolved (service (13 ∷ []) "bath"); accepted = false }
    ∷ record { now = 7; received = resolved (service (14 ∷ []) "attic"); accepted = true }
    ∷ record { now = 11; received = resolved (service (15 ∷ []) "shed"); accepted = true }
    ∷ []

discovery_tests :
    (discover_blocking running 0 10 rounds
      ≡ ok (device 11 "kitchen" ∷ device 13 "bath" ∷ device 14 "attic" ∷ []))
    × (discover running 0 10 rounds ≡ ok (device 11 "kitchen" ∷ []))
unfolding discovery
discovery_tests = (refl, refl)

discover_blocking_lem_example : discover_blocking running 0 10 rounds ≡ ok (found 10 rounds)
discover_blocking_lem_example = discover_blocking_lem running 0 10 rounds refl

discover-discover_blocking_example :
    (AllAccepted rounds → discover running 0 10 rounds ≡ discover_blocking running 0 10 rounds)
    × (begin running ≡ ok tt
        → (ds : List DeviceInfo) × (more : List DeviceInfo) × (discover running 0 10 rounds ≡ ok ds)
          × (discover_blocking running 0 10 rounds ≡ ok more)
          × Extends more ds)
discover-discover_blocking_example = discover-discover_blocking running 0 10 rounds
