-- ===== src/Client/State.antt =====
-- `ClientInner` of src/client.rs as far as commands read and write it, and how commands are chained.
-- A command is a function of the client's state that returns a result and the new state.
use oxicast.Common.{ℕ, ◌≡◌, refl, arith, String, Bool, true, false, Option, if◌then◌else◌}
use oxicast.Common.Int.{ℤ, is_positive}
use oxicast.Error.{Result, ok, err, ok_or, disconnected, no_application, no_media_session}
use oxicast.Message.{CastMessage}
use oxicast.State.{set_media_session_id}
use oxicast.Router.{World, write}

pub record Client (V : Type 0) : Type 0 where
  pub world : World V
  pub open world use *
  pub transport_id : Option String
  pub session_id : Option String
  pub request_timeout : ℕ

abbrev pub Command : Type 0 → Type 0 → Type 0
Command V A = Client V → Result A × Client V

-- `?` on the result of a step.
module _ {V : Type 0} where
  abbrev pub proceed :
      {A B : Type 0} → Result A × Client V → (A → Command V B) → Result B × Client V
  proceed (ok a, c) f = f a c
  proceed (err e, c) f = (err e, c)

  infixl 5 ◌>>=◌ ◌>>◌
  abbrev pub ◌>>=◌ : {A B : Type 0} → Command V A → (A → Command V B) → Command V B
  ◌>>=◌ m f c = proceed (m c) f

  abbrev pub ◌>>◌ : {B : Type 0} → Command V (Unit {0}) → Command V B → Command V B
  m >> k = m >>= λ _. k

  -- A result that does not depend on the state.
  abbrev pub lift : {A : Type 0} → Result A → Command V A
  lift r c = (r, c)

  abbrev pub modify : (Client V → Client V) → Command V (Unit {0})
  modify f c = (ok tt, f c)

  -- `self.send(msg).await`; `accepted` is false if the write channel is closed.
  unfoldable pub send : CastMessage → (accepted : Bool) → Command V (Unit {0})
  send msg true c = (ok tt, record c { world = write msg c.world })
  send msg false c = (err disconnected, c)

  unfoldable pub get_transport_id : Command V String
  get_transport_id c = (ok_or c.transport_id no_application, c)

  unfoldable pub get_session_id : Command V String
  get_session_id c = (ok_or c.session_id no_application, c)

  unfoldable pub get_media_session_id : Command V ℤ
  get_media_session_id c = (
    (if is_positive c.state.media_session_id
        then ok c.state.media_session_id
        else err no_media_session),
    c,
  )

  abbrev pub store_session : ℤ → Client V → Client V
  store_session id c = record c {
    world = record (c.world) { state = set_media_session_id id c.state };
  }

module _ {V : Type 0} where
  proceed-ok :
      {A B : Type 0} (p : Result A × Client V) (f : A → Command V B) {b : B} {c : Client V}
      → proceed p f ≡ (ok b, c)
      → (a : A) × (c₁ : Client V) × (p ≡ (ok a, c₁)) × (f a c₁ ≡ (ok b, c))
  proceed-ok (ok a, c₁) f e = (a, c₁, refl, e)
  proceed-ok (err x, c₁) f e = absurd (ground arith)

  -- A chain that succeeds is a success of its first step and of the rest.
  pub >>=-ok :
      {A B : Type 0} (m : Command V A) (f : A → Command V B) {b : B} (c : Client V) {c' : Client V}
      → (m >>= f) c ≡ (ok b, c')
      → (a : A) × (c₁ : Client V) × (m c ≡ (ok a, c₁)) × (f a c₁ ≡ (ok b, c'))
  >>=-ok m f c e = proceed-ok (m c) f e
