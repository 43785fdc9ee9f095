-- ===== src/Client/Connection.antt =====
-- src/client/connection.rs, and the calls that lead to it from a builder, from a host, and from a
-- discovered device. What tokio, rustls and the standard library answer is a record of functions.
use oxicast.Common.{
  ℕ, String, Bool, Option, none, some, List, [], ◌∷◌, if◌then◌else◌, ◌≡◌, refl, arith,
}
use oxicast.Types.{F64, F32, IpAddr, DeviceInfo}
use oxicast.Error.{Error, Result, ok, err, ◌>>=◌, connect, tls}
use oxicast.Serde.{SerdeJson}
use oxicast.Router.Traffic.{Traffic}
use oxicast.Client.Builder.{CastClientBuilder, Connected, Exit, new, from_builder}

pub data ServerName : Type 0 where
  parsed : String → ServerName
  ip_address : IpAddr → ServerName

-- Whose certificates a handshake accepts: those under some roots, or all.
pub data ClientConfig (Cert : Type 0) : Type 0 where
  with_root_certificates : List Cert → ClientConfig Cert
  no_cert_verification : ClientConfig Cert

-- An error is its text, and none is success. `usable` says whether a root store takes a certificate.
pub record Peer : Type 1 where
  pub Cert : Type 0
  pub tcp_connect : (host : String) (port : ℕ) → Option String
  pub native_certs : List Cert
  pub usable : Cert → Bool
  pub try_from : String → Option ServerName
  pub parse_ip : String → Option IpAddr
  pub handshake : ClientConfig Cert → ServerName → Option String
  pub show_ip : IpAddr → String

abbrev check : (String → Error) → Option String → Result (Unit {0})
check f none = ok tt
check f (some e) = err (f e)

check-ok : (f : String → Error) (o : Option String) → check f o ≡ ok tt → o ≡ none
check-ok f none h = refl
check-ok f (some e) h = absurd (ground arith)

then-ok :
    {A B : Type 0} (r : Result A) (f : A → Result B) {b : B}
    → (r >>= f) ≡ ok b
    → (a : A) × (r ≡ ok a) × (f a ≡ ok b)
then-ok (ok a) f h = (a, refl, h)
then-ok (err e) f h = absurd (ground arith)

module _ (p : Peer) where
  open p use {Cert}

  unfoldable pub root_store : List Cert → List Cert
  root_store [] = []
  root_store (cert ∷ certs) =
      let rest = root_store certs in if p.usable cert then cert ∷ rest else rest

  unfoldable pub config_for : (verify_tls : Bool) → ClientConfig Cert
  unfolding root_store
  config_for verify_tls =
      if verify_tls
      then with_root_certificates (root_store p.native_certs)
      else no_cert_verification

  abbrev ip_name : Option IpAddr → Result ServerName
  ip_name (some ip) = ok (ip_address ip)
  ip_name none = err (tls "invalid host")

  abbrev name_or : Option ServerName → Result ServerName → Result ServerName
  name_or (some name) other = ok name
  name_or none other = other

  unfoldable pub server_name : String → Result ServerName
  server_name host = name_or (p.try_from host) (ip_name (p.parse_ip host))

  unfoldable pub open_stream : (host : String) (port : ℕ) (verify_tls : Bool) → Result (Unit {0})
  unfolding config_for server_name
  open_stream host port verify_tls = check connect (p.tcp_connect host port) >>= λ _.
      server_name host >>= λ name. check tls (p.handshake (config_for verify_tls) name)

  -- An open stream has been through a handshake that verifies as it was asked to.
  pub open_stream-ok :
      (host : String) (port : ℕ) (verify_tls : Bool)
      → open_stream host port verify_tls ≡ ok tt
      → (p.tcp_connect host port ≡ none)
        × ((name : ServerName) × (server_name host ≡ ok name)
            × (p.handshake (config_for verify_tls) name ≡ none))
  unfolding open_stream
  open_stream-ok host port verify_tls h =
      let (u, opened, rest) = then-ok (check connect (p.tcp_connect host port)) _ h in
      let (name, named, secured) = then-ok (server_name host) _ rest in
      (
        check-ok connect (p.tcp_connect host port) opened,
        (name, named, check-ok tls (p.handshake (config_for verify_tls) name) secured),
      )

  module _ (j : SerdeJson) (to_f32 : F64 → F32) where
    open j use {Value}

    -- `CastClientBuilder::connect`.
    unfoldable pub connect_builder :
        (accepted : Bool)
        → List Exit
        → List Traffic
        → CastClientBuilder
        → Option (Result (Connected Value))
    connect_builder accepted exits meanwhile b =
        from_builder j to_f32 (open_stream b.host b.port b.verify_tls) accepted exits meanwhile b

    -- `CastClient::connect`.
    unfoldable pub connect_host :
        (accepted : Bool)
        → List Exit
        → List Traffic
        → (host : String) (port : ℕ) → Option (Result (Connected Value))
    unfolding connect_builder
    connect_host accepted exits meanwhile host port =
        connect_builder accepted exits meanwhile (new host port)

    -- `DeviceInfo::connect`.
    unfoldable pub connect_device :
        (accepted : Bool)
        → List Exit
        → List Traffic
        → DeviceInfo
        → Option (Result (Connected Value))
    unfolding connect_host
    connect_device accepted exits meanwhile d =
        connect_host accepted exits meanwhile (p.show_ip d.ip) d.port
