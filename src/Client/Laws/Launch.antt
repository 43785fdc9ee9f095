-- ===== src/Client/Laws/Launch.antt =====
-- What a successful launch leaves behind.
use oxicast.Common.{
  String, Bool, true, false, Option, none, some, List, [], ◌∷◌, ◌≡◌, refl, sym, ap, subst, arith,
  str_eq, str_eq_iff, inl, inr, Option-cases, and_then, and_then-some, Bool-cases,
}
use oxicast.Common.Int.{ℤ}
use oxicast.Types.{F64, F32, Application, CastApp, app_id}
use oxicast.Error.{ok}
use oxicast.Event.{CastEvent, as_receiver_status}
use oxicast.Message.{CastMessage}
use oxicast.Serde.{SerdeJson}
use oxicast.Channel.Receiver
use oxicast.Channel.Connection.{connect_msg}
use oxicast.Router.Parse.Receiver.{parse_receiver_status}
use oxicast.Client.State.{Client, >>=-ok, lift, send}
use oxicast.Router.Traffic.{Traffic}
use oxicast.Client.Request.{Reply, request, tasks_run}
use oxicast.Client.Device.{check_device_error}
use oxicast.Client.Receiver.{find_app, adopt_app, await_app, adopt_or_await, listed, launch_app}

find_app-id :
    (target : String) (apps : List Application) (a : Application)
    → find_app target apps ≡ some a
    → a.app_id ≡ target
unfolding find_app
find_app-id target [] a e = cc
find_app-id target (b ∷ apps) a e = elim (Bool-cases (str_eq b.app_id target)) [
  | inl hit ↦
      let same : b ≡ a = ground arith in
      subst (λ (x : Application). x.app_id ≡ target) same ((str_eq_iff b.app_id target).0 hit)
  | inr miss ↦ find_app-id target apps a (ground arith)
]

listed-id :
    (target : String) (event : Option CastEvent) (a : Application)
    → listed target event ≡ some a
    → a.app_id ≡ target
listed-id target event a e =
    let (s, _, f) = and_then-some (and_then event as_receiver_status) _ e in
    find_app-id target s.applications a f

module _ (j : SerdeJson) (to_f32 : F64 → F32) (show_i64 : ℤ → String) where
  -- The application is the one asked for, its transport and session are remembered, and the last
  -- message sent is the CONNECT to it.
  abbrev pub IsAdopted : String → Application → Client j.Value → Type 0
  IsAdopted target a c =
      (a.app_id ≡ target)
      × (c.transport_id ≡ some a.transport_id)
      × (c.session_id ≡ some a.session_id)
      × ((older : List CastMessage) × (c.written ≡ connect_msg j a.transport_id ∷ older))

  adopt_app-IsAdopted :
      (target : String) (a b : Application) (accepted : Bool) (c c' : Client j.Value)
      → a.app_id ≡ target
      → adopt_app j to_f32 show_i64 a accepted c ≡ (ok b, c')
      → IsAdopted target b c'
  unfolding adopt_app send
  adopt_app-IsAdopted target a b false c c' h e = absurd (ground arith)
  adopt_app-IsAdopted target a b true c c' h e =
      let same : a ≡ b = ground arith in
      let after = ap (λ p. p.1) e in
      subst (λ (x : Application). IsAdopted target x c') same
        (
          h,
          ap (λ (d : Client j.Value). d.transport_id) (sym after),
          ap (λ (d : Client j.Value). d.session_id) (sym after),
          (c.written, ap (λ (d : Client j.Value). d.written) (sym after)),
        )

  await_app-IsAdopted :
      (target : String) (accepted : Bool) (rounds : List (List Traffic × Option CastEvent))
      (b : Application) (c c' : Client j.Value)
      → await_app j to_f32 show_i64 target accepted rounds c ≡ (ok b, c')
      → IsAdopted target b c'
  unfolding await_app
  await_app-IsAdopted target accepted [] b c c' e = absurd (ground arith)
  await_app-IsAdopted target accepted ((traffic, event) ∷ rounds) b c c' e =
      elim (Option-cases (listed target event)) [
        | inl o ↦
            await_app-IsAdopted target accepted rounds b (tasks_run j to_f32 traffic c) c'
              (rw (o, await_app) at e)
        | inr (a, o) ↦
            adopt_app-IsAdopted target a b accepted (tasks_run j to_f32 traffic c) c'
              (listed-id target event a o) (rw (o, await_app) at e)
      ]

  adopt_or_await-IsAdopted :
      (target : String) (accepted : Bool) (rounds : List (List Traffic × Option CastEvent))
      (o : Option Application) (b : Application) (c c' : Client j.Value)
      → ((a : Application) → o ≡ some a → a.app_id ≡ target)
      → adopt_or_await j to_f32 show_i64 target accepted rounds o c ≡ (ok b, c')
      → IsAdopted target b c'
  adopt_or_await-IsAdopted target accepted rounds none b c c' h e =
      await_app-IsAdopted target accepted rounds b c c' e
  adopt_or_await-IsAdopted target accepted rounds (some a) b c c' h e =
      adopt_app-IsAdopted target a b accepted c c' (h a refl) e

  -- A launch that succeeds, from the first response or from a later status, gives the application
  -- asked for, remembers its transport and session, and has sent a CONNECT to it last.
  pub launch_app-ok :
      (app : CastApp) (reply : Reply j.Value) (connected : Bool)
      (rounds : List (List Traffic × Option CastEvent)) (b : Application) (c c' : Client j.Value)
      → launch_app j to_f32 show_i64 app reply connected rounds c ≡ (ok b, c')
      → IsAdopted (app_id app) b c'
  unfolding launch_app
  launch_app-ok app reply connected rounds b c c' e =
      let (json, c₁, _, f₁) =
        >>=-ok (request j to_f32 (λ id. Receiver.launch_app j id (app_id app)) reply) _ c e in
      let (u, c₂, _, f₂) = >>=-ok (lift (check_device_error j show_i64 json)) _ c₁ f₁ in
      adopt_or_await-IsAdopted (app_id app) connected rounds _ b c₂ c'
        (λ a o.
          let (s, _, found) = and_then-some (parse_receiver_status j to_f32 json) _ o in
          find_app-id (app_id app) s.applications a found)
        f₂
