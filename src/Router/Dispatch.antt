-- ===== src/Router/Dispatch.antt =====
-- Case analysis for `route` by namespace, and what its two state updates change.
use oxicast.Common.{Option, inl, inr, Bool-cases, str_eq}
use oxicast.Types.{F64, F32}
use oxicast.Ns
use oxicast.Message.{CastMessage}
use oxicast.Serde.{SerdeJson}
use oxicast.Router.{
  World, route, route_heartbeat, route_connection, route_receiver, route_media, route_custom,
  payload_str,
}

module _ (j : SerdeJson) (to_f32 : F64 → F32) where
  abbrev pub parsed : CastMessage → Option j.Value
  parsed msg = j.from_str (payload_str msg)

  -- What holds of each handler's result holds of the result of `route`.
  pub route_cases {ℓ} :
      (P : World j.Value → Type ℓ) (msg : CastMessage) (w : World j.Value)
      → P (route_heartbeat j to_f32 msg w)
      → P (route_connection j to_f32 msg (parsed msg) w)
      → P (route_receiver j to_f32 (parsed msg) w)
      → P (route_media j to_f32 (parsed msg) w)
      → P (route_custom j to_f32 msg (parsed msg) w)
      → P (route j to_f32 msg w)
  unfolding route
  route_cases P msg w heartbeat connection receiver media custom =
      elim (Bool-cases (str_eq msg.namespace Ns.ns_heartbeat)) [
        | inl e ↦ rw e heartbeat
        | inr e ↦ rw e elim (Bool-cases (str_eq msg.namespace Ns.ns_connection)) [
          | inl e₁ ↦ rw e₁ connection
          | inr e₁ ↦ rw e₁ elim (Bool-cases (str_eq msg.namespace Ns.ns_receiver)) [
            | inl e₂ ↦ rw e₂ receiver
            | inr e₂ ↦ rw e₂ elim (Bool-cases (str_eq msg.namespace Ns.ns_media)) [
              | inl e₃ ↦ rw e₃ media
              | inr e₃ ↦ rw e₃ custom
            ]
          ]
        ]
      ]
