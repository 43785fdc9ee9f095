-- ===== src/Discovery.antt =====
-- src/discovery.rs: the two scans for devices. What the mdns-sd crate answers is given round by round:
-- the clock at the head of the loop, and what `recv_timeout` gives if it is called.
pub mod Reference
pub mod Streaming
pub mod Distinct
use oxicast.Common.{
  ℕ, ◌+◌, String, Bool, true, false, not, Option, none, some, List, [], ◌∷◌, ◌++◌, ltb, ◌==◌, ◌||◌,
  if◌then◌else◌, unwrap_or, contains,
}
use oxicast.Error.{Result, ok, err, ◌>>=◌, discovery}
use oxicast.Types.{DeviceInfo, IpAddr, v4, v6}

-- What the code asks of a resolved service: its IPv4 addresses in the order of the set's iterator, its
-- properties by key, its full name and its port.
pub record Service : Type 0 where
  pub addresses : List ℕ
  pub property : String → Option String
  pub fullname : String
  pub port : ℕ

-- An event that is not `ServiceResolved` is one of the others; an error is kept as its debug text.
pub data Received : Type 0 where
  resolved : Service → Received
  other : Received
  failed : String → Received

-- `accepted` says whether the stream's receiver takes a device, if one is sent.
pub record Round : Type 0 where
  pub now : ℕ
  pub received : Received
  pub accepted : Bool

abbrev pub ip_eq : IpAddr → IpAddr → Bool
ip_eq (v4 a) (v4 b) = a == b
ip_eq (v6 a) (v6 b) = a == b
ip_eq _ _ = false

unfoldable pub is_seen : IpAddr → List IpAddr → Bool
is_seen ip [] = false
is_seen ip (i ∷ seen) = ip_eq ip i || is_seen ip seen

abbrev address_of : List ℕ → Option IpAddr
address_of [] = none
address_of (a ∷ _) = some (v4 a)

-- `get_addresses_v4().iter().next()`.
abbrev pub first_address : Service → Option IpAddr
first_address info = address_of info.addresses

abbrev pub device_at : Service → IpAddr → DeviceInfo
device_at info ip = record {
  name = unwrap_or (info.property "fn") info.fullname;
  ip = ip;
  port = info.port;
  model = info.property "md";
  uuid = info.property "id";
}

-- The set of addresses, and the devices that have been pushed or sent, in order.
pub record Scan : Type 0 where
  pub seen : List IpAddr
  pub devices : List DeviceInfo

abbrev pub empty_scan : Scan
empty_scan = record { seen = []; devices = [] }

-- How a round of a loop ends: at its head again, or by a `break`.
pub data Flow : Type 0 where
  continues breaks : Scan → Flow

abbrev pub push : DeviceInfo → Scan → Flow
push d s = continues (record s { devices = s.devices ++ d ∷ [] })

-- `tx.blocking_send`.
abbrev pub send : (accepted : Bool) → DeviceInfo → Scan → Flow
send accepted d s = if accepted then push d s else breaks s

-- A resolved service, with its address if it has one; `give` is the end of the loop's body.
abbrev pub on_resolved : (DeviceInfo → Scan → Flow) → Service → Option IpAddr → Scan → Flow
on_resolved give info none s = continues s
on_resolved give info (some ip) s =
    if is_seen ip s.seen
    then continues s
    else give (device_at info ip) (record s { seen = ip ∷ s.seen })

abbrev pub on_received : (DeviceInfo → Scan → Flow) → Received → Scan → Flow
on_received give (resolved info) s = on_resolved give info (first_address info) s
on_received give other s = continues s
on_received give (failed text) s = if contains text "Timeout" then continues s else breaks s

abbrev pub follow : (Scan → Scan) → Flow → Scan
follow next (continues s) = next s
follow next (breaks s) = s

-- `while Instant::now() < deadline`, over the rounds that the surroundings provide.
unfoldable pub scan : ℕ → (Round → Scan → Flow) → List Round → Scan → Scan
scan deadline body [] s = s
scan deadline body (r ∷ rounds) s =
    let rest = scan deadline body rounds in if ltb r.now deadline then follow rest (body r s) else s

-- The bodies of the two loops.
unfoldable pub blocking_round : Round → Scan → Flow
blocking_round r s = on_received push r.received s

unfoldable pub streaming_round : Round → Scan → Flow
streaming_round r s = on_received (send r.accepted) r.received s

-- What initializing the daemon and browsing give: nothing, or an error whose text is left out.
pub record Mdns : Type 0 where
  pub daemon : Bool
  pub browse : Bool

abbrev pub begin : Mdns → Result (Unit {0})
begin m =
    if not m.daemon
    then err (discovery "mDNS daemon")
    else if not m.browse
    then err (discovery "mDNS browse")
    else ok tt

-- `start` is the clock when the deadline is set.
unfoldable pub discover_blocking :
    Mdns → (start timeout : ℕ) → List Round → Result (List DeviceInfo)
unfolding scan blocking_round
discover_blocking m start timeout rounds =
    begin m >>= λ _. ok (scan (start + timeout) blocking_round rounds empty_scan).devices

-- `discover`, with the devices that its stream receives until it closes.
unfoldable pub discover : Mdns → (start timeout : ℕ) → List Round → Result (List DeviceInfo)
unfolding scan streaming_round
discover m start timeout rounds =
    begin m >>= λ _. ok (scan (start + timeout) streaming_round rounds empty_scan).devices

-- `joined` is false if the blocking task panicked or was cancelled.
unfoldable pub discover_devices :
    (joined : Bool) → Mdns → (start timeout : ℕ) → List Round → Result (List DeviceInfo)
discover_devices joined m start timeout rounds =
    if joined then discover_blocking m start timeout rounds else err (discovery "discovery task")
