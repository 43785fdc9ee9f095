-- ===== src/Router/Delivery.antt =====
-- The responses that do reach their request, and the custom messages that reach nobody.
use oxicast.Common.{
  ℕ, ◌<◌, String, Option, none, some, ◌≡◌, ◌≢◌, refl, ◌⊎◌, inl, inr, arith, ltb, Bool-cases,
  str_eq_iff, unwrap_or, ◌∙◌,
}
use oxicast.Common.Int.{as_u32}
use oxicast.Types.{F64, F32}
use oxicast.Ns
use oxicast.Message.{CastMessage}
use oxicast.Tracker.{resolve, get}
use oxicast.Tracker.Laws.{resolve-unknown}
use oxicast.Serde.{SerdeJson}
use oxicast.Router.Parse.Fields.{get_str, get_u64}
use oxicast.Router.Parse.Media.{parse_media_status}
use oxicast.Router.Parse.Receiver.{parse_receiver_status}
use oxicast.Router.Dispatch.{parsed}
use oxicast.Router.Correlation.{on_media_status-tracker, on_receiver_status-tracker}
use oxicast.Router.{
  World, MediaMessageType, status, load_failed, load_cancelled, invalid_request, unknown, route,
  route_receiver, route_media, route_media_as, route_custom, raise_raw, resolve_if_positive,
  route_custom_id, classify_media_message,
}

abbrev pub IsCustom : String → Type 0
IsCustom namespace =
    (namespace ≢ Ns.ns_heartbeat)
    × (namespace ≢ Ns.ns_connection)
    × (namespace ≢ Ns.ns_receiver)
    × (namespace ≢ Ns.ns_media)

module _ (j : SerdeJson) (to_f32 : F64 → F32) where
  route-custom :
      (msg : CastMessage) (w : World j.Value)
      → IsCustom msg.namespace
      → route j to_f32 msg w ≡ route_custom j to_f32 msg (parsed j to_f32 msg) w
  unfolding route
  route-custom msg w h = ground (
    arith,
    str_eq_iff msg.namespace Ns.ns_heartbeat,
    str_eq_iff msg.namespace Ns.ns_connection,
    str_eq_iff msg.namespace Ns.ns_receiver,
    str_eq_iff msg.namespace Ns.ns_media,
  )

  route-receiver :
      (msg : CastMessage) (w : World j.Value)
      → msg.namespace ≡ Ns.ns_receiver
      → route j to_f32 msg w ≡ route_receiver j to_f32 (parsed j to_f32 msg) w
  unfolding route
  route-receiver msg w h = rw h

  route-media :
      (msg : CastMessage) (w : World j.Value)
      → msg.namespace ≡ Ns.ns_media
      → route j to_f32 msg w ≡ route_media j to_f32 (parsed j to_f32 msg) w
  unfolding route
  route-media msg w h = rw h

  abbrev pub media_type : j.Value → MediaMessageType
  media_type json = classify_media_message (unwrap_or (get_str j json "type") "")

  -- The messages whose request id the router looks at.
  abbrev pub IsCorrelated : String → j.Value → Type 0
  IsCorrelated namespace json =
      (namespace ≡ Ns.ns_receiver)
      ⊎ ((namespace ≡ Ns.ns_media) × (media_type json ≢ unknown))
      ⊎ IsCustom namespace

  module _ (msg : CastMessage) (w : World j.Value) (json : j.Value) (n : ℕ)
      (reads : parsed j to_f32 msg ≡ some json) (names : get_u64 j json "requestId" ≡ some n)
      (positive : 0 < n) where
    resolved_lem :
        (resolve_if_positive (get_u64 j json "requestId") json w).tracker
        ≡ (resolve (as_u32 n) json w.tracker).1
    unfolding resolve_if_positive
    resolved_lem = rw names (ground arith)

    receiver_lem :
        (route_receiver j to_f32 (some json) w).tracker ≡ (resolve (as_u32 n) json w.tracker).1
    unfolding route_receiver
    receiver_lem =
        let resolved = resolve_if_positive (get_u64 j json "requestId") json w in
        ground (
          arith,
          on_receiver_status-tracker (parse_receiver_status j to_f32 json) resolved,
          resolved_lem,
        )

    media_as_lem :
        (kind : MediaMessageType)
        → kind ≢ unknown
        → (route_media_as j to_f32 kind json w).tracker ≡ (resolve (as_u32 n) json w.tracker).1
    unfolding route_media_as
    media_as_lem status h =
        on_media_status-tracker (parse_media_status j to_f32 json) _ ∙ resolved_lem
    media_as_lem load_failed h = resolved_lem
    media_as_lem load_cancelled h = resolved_lem
    media_as_lem invalid_request h = resolved_lem
    media_as_lem unknown h = absurd (h refl)

    custom_lem :
        (route_custom j to_f32 msg (some json) w).tracker ≡ (resolve (as_u32 n) json w.tracker).1
    unfolding route_custom resolve_if_positive
    custom_lem = rw names (ground arith)

    -- A message of the receiver namespace, of a known media type, or of a custom namespace, whose
    -- payload names a positive request id, is a response to the id's low 32 bits.
    pub route-resolves :
        IsCorrelated msg.namespace json
        → (route j to_f32 msg w).tracker ≡ (resolve (as_u32 n) json w.tracker).1
    unfolding route_media
    route-resolves (inl h) = rw (route-receiver msg w h, reads) receiver_lem
    route-resolves (inr (inl (h, k))) = rw (route-media msg w h, reads) (media_as_lem _ k)
    route-resolves (inr (inr h)) = rw (route-custom msg w h, reads) custom_lem

    -- In a custom namespace, a message with a positive id that nobody waits for changes nothing: no
    -- request is answered, and no event is raised.
    pub route-custom_lost :
        IsCustom msg.namespace → get (as_u32 n) w.tracker.pending ≡ none → route j to_f32 msg w ≡ w
    unfolding route_custom resolve_if_positive
    route-custom_lost h e =
        rw (route-custom msg w h, reads, names)
          (ground (arith, resolve-unknown (as_u32 n) json w.tracker e))

  -- The message names a positive request id.
  abbrev pub NamesRequest : Option j.Value → Type 0
  NamesRequest none = ⊥
  NamesRequest (some json) = (n : ℕ) × (get_u64 j json "requestId" ≡ some n) × (0 < n)

  route_custom_id-raw :
      (msg : CastMessage) (json : j.Value) (o : Option ℕ) (w : World j.Value)
      → ¬ ((n : ℕ) × (o ≡ some n) × (0 < n))
      → route_custom_id j to_f32 msg json o w ≡ raise_raw j to_f32 msg w
  route_custom_id-raw msg json none w h = refl
  route_custom_id-raw msg json (some n) w h = elim (Bool-cases (ltb 0 n)) [
    | inl e ↦ absurd (h (n, refl, ground arith))
    | inr e ↦ rw e
  ]

  route_custom-raw :
      (msg : CastMessage) (o : Option j.Value) (w : World j.Value)
      → ¬ NamesRequest o
      → route_custom j to_f32 msg o w ≡ raise_raw j to_f32 msg w
  unfolding route_custom
  route_custom-raw msg none w h = refl
  route_custom-raw msg (some json) w h = route_custom_id-raw msg json _ w h

  -- A message in a custom namespace that names no positive request id, or is no JSON, is raised as
  -- an event and changes nothing else.
  pub route-custom_raw :
      (msg : CastMessage) (w : World j.Value)
      → IsCustom msg.namespace
      → ¬ NamesRequest (parsed j to_f32 msg)
      → route j to_f32 msg w ≡ raise_raw j to_f32 msg w
  route-custom_raw msg w h free =
      route-custom msg w h ∙ route_custom-raw msg (parsed j to_f32 msg) w free
