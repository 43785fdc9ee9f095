-- ===== src/Router/Answered.antt =====
-- What becomes of a pending request while the reader routes messages.
use oxicast.Common.{
  ℕ, ◌<◌, ◌≡◌, ◌≢◌, refl, sym, ap, ◌∙◌, subst, Bool, Option, none, some, List, [], ◌∷◌, ◌++◌, All,
  inl, inr, arith,
}
use mathlib.Core.List.{append_assoc}
use oxicast.Common.Int.{as_u32}
use oxicast.Types.{F64, F32}
use oxicast.Message.{CastMessage}
use oxicast.Serde.{SerdeJson}
use oxicast.Tracker.{Tracker, get, resolve}
use oxicast.Tracker.Laws.{resolve_lem}
use oxicast.Router.{World, route}
use oxicast.Router.Dispatch.{parsed}
use oxicast.Router.Parse.Fields.{get_u64}
use oxicast.Router.Traffic.{Traffic, reads, beats, pass, pass_all, pass_all-append}
use oxicast.Router.Correlation.{AnswersOwn, route-AnswersOwn}
use oxicast.Router.Delivery.{IsCorrelated, route-resolves}

module _ {V : Type 0} where
  -- What was sent before is still sent.
  abbrev pub Keeps : (t u : Tracker V) → Type 0
  Keeps t u = (new : List (ℕ × V)) × (u.sent ≡ new ++ t.sent)

  resolve-Keeps : (id : ℕ) (v : V) (t : Tracker V) → Keeps t (resolve id v t).1
  resolve-Keeps id v t = elim (resolve_lem id v t) [
    | inl (unknown, same) ↦ ([], ap (λ (p : Bool × Tracker V). p.1.sent) same)
    | inr (c, known, found, told, others) ↦ ((c, v) ∷ [], told)
  ]

  -- A response to another id.
  resolve-other :
      (n id : ℕ) (v : V) (t : Tracker V)
      → n ≢ id
      → get id (resolve n v t).1.pending ≡ get id t.pending
  resolve-other n id v t differ = elim (resolve_lem n v t) [
    | inl (unknown, same) ↦ ap (λ (p : Bool × Tracker V). get id p.1.pending) same
    | inr (c, known, found, told, others) ↦ ground (arith, others id)
  ]

  resolve-told :
      (id c : ℕ) (v : V) (t : Tracker V)
      → get id t.pending ≡ some c
      → (resolve id v t).1.sent ≡ (c, v) ∷ t.sent
  resolve-told id c v t h = elim (resolve_lem id v t) [
    | inl (unknown, same) ↦ cc
    | inr (c', known, found, told, others) ↦ cc
  ]

module _ (j : SerdeJson) (to_f32 : F64 → F32) where
  -- The message names the request.
  abbrev pub IsAbout : CastMessage → ℕ → Type 0
  IsAbout m id =
      (json : j.Value) × (n : ℕ) × (parsed j to_f32 m ≡ some json)
      × (get_u64 j json "requestId" ≡ some n)
      × (0 < n)
      × (as_u32 n ≡ id)

  AnswersOwn-Keeps :
      (o : Option j.Value) (t u : Tracker j.Value) → AnswersOwn j to_f32 o t u → Keeps t u
  AnswersOwn-Keeps none t u h = ([], ap (λ (x : Tracker j.Value). x.sent) h)
  AnswersOwn-Keeps (some json) t u (inl h) = ([], ap (λ (x : Tracker j.Value). x.sent) h)
  AnswersOwn-Keeps (some json) t u (inr (n, names, positive, h)) =
      subst (Keeps t) (sym h) (resolve-Keeps (as_u32 n) json t)

  AnswersOwn-other :
      (o : Option j.Value) (id : ℕ) (t u : Tracker j.Value)
      → AnswersOwn j to_f32 o t u
      → ¬ (
          (json : j.Value) × (n : ℕ) × (o ≡ some json)
          × (get_u64 j json "requestId" ≡ some n)
          × (0 < n)
          × (as_u32 n ≡ id))
      → get id u.pending ≡ get id t.pending
  AnswersOwn-other none id t u h other = ap (λ (x : Tracker j.Value). get id x.pending) h
  AnswersOwn-other (some json) id t u (inl h) other =
      ap (λ (x : Tracker j.Value). get id x.pending) h
  AnswersOwn-other (some json) id t u (inr (n, names, positive, h)) other =
      ap (λ (x : Tracker j.Value). get id x.pending) h
      ∙ resolve-other (as_u32 n) id json t (λ q. other (json, n, refl, names, positive, q))

  pass-Keeps : (x : Traffic) (w : World j.Value) → Keeps w.tracker (pass j to_f32 x w).tracker
  pass-Keeps (reads m) w = AnswersOwn-Keeps (parsed j to_f32 m) _ _ (route-AnswersOwn j to_f32 m w)
  pass-Keeps beats w = ([], refl)

  pass_all-Keeps :
      (traffic : List Traffic) (w : World j.Value)
      → Keeps w.tracker (pass_all j to_f32 traffic w).tracker
  unfolding pass_all
  pass_all-Keeps [] w = ([], refl)
  pass_all-Keeps (x ∷ more) w =
      let (new, e) = pass-Keeps x w in
      let (newer, f) = pass_all-Keeps more (pass j to_f32 x w) in
      (newer ++ new, f ∙ ap (λ xs. newer ++ xs) e ∙ sym (append_assoc newer new w.tracker.sent))

  -- A message about the request is read.
  abbrev pub Asks : Traffic → ℕ → Type 0
  Asks (reads m) id = IsAbout m id
  Asks beats id = ⊥

  pass-other :
      (id : ℕ) (x : Traffic) (w : World j.Value)
      → ¬ Asks x id
      → get id (pass j to_f32 x w).tracker.pending ≡ get id w.tracker.pending
  pass-other id (reads m) w other =
      AnswersOwn-other (parsed j to_f32 m) id _ _ (route-AnswersOwn j to_f32 m w) other
  pass-other id beats w other = refl

  -- Messages about other requests leave a request pending.
  pass_all-other :
      (id : ℕ) (traffic : List Traffic) (w : World j.Value)
      → All (λ x. ¬ Asks x id) traffic
      → get id (pass_all j to_f32 traffic w).tracker.pending ≡ get id w.tracker.pending
  unfolding pass_all
  pass_all-other id [] w h = refl
  pass_all-other id (x ∷ more) w (other, others) =
      pass_all-other id more (pass j to_f32 x w) others ∙ pass-other id x w other

  -- The payload has been put on the channel.
  abbrev pub IsTold : Tracker j.Value → ℕ → j.Value → Type 0
  IsTold t c json =
      (newer : List (ℕ × j.Value)) × (older : List (ℕ × j.Value)) × (t.sent
        ≡ newer ++ (c, json) ∷ older)

  -- The first message about a pending request, in a namespace where the router looks for one, puts its
  -- payload on the request's channel, whatever comes before and after it.
  pub pass_all-IsTold :
      (before after : List Traffic) (m : CastMessage) (w : World j.Value) (c n : ℕ) (json : j.Value)
      → get (as_u32 n) w.tracker.pending ≡ some c
      → All (λ x. ¬ Asks x (as_u32 n)) before
      → parsed j to_f32 m ≡ some json
      → get_u64 j json "requestId" ≡ some n
      → 0 < n
      → IsCorrelated j to_f32 m.namespace json
      → IsTold (pass_all j to_f32 (before ++ reads m ∷ after) w).tracker c json
  unfolding pass_all
  pass_all-IsTold before after m w c n json waits others reads_json names positive correlated =
      let earlier = pass_all j to_f32 before w in
      let still = pass_all-other (as_u32 n) before w others ∙ waits in
      let answered = route j to_f32 m earlier in
      let told =
        ap (λ (t : Tracker j.Value). t.sent)
          (route-resolves j to_f32 m earlier json n reads_json names positive correlated)
        ∙ resolve-told (as_u32 n) c json earlier.tracker still in
      let (newer, e) = pass_all-Keeps after answered in
      (
        newer,
        earlier.tracker.sent,
        ap (λ (u : World j.Value). u.tracker.sent)
              (pass_all-append j to_f32 before (reads m ∷ after) w)
            ∙ e
            ∙ ap (λ xs. newer ++ xs) told,
      )
