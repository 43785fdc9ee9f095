-- ===== src/Client/Laws/Sessions.antt =====
-- How commands move the tracked media session and the application.
use oxicast.Common.{
  ℕ, String, Bool, Option, none, some, List, ◌≡◌, ◌≢◌, refl, sym, ap, ◌∙◌, subst, arith, str_eq_iff,
  ◌⊎◌, inl, inr, ◌↔◌,
}
use oxicast.Common.Int.{ℤ, pos}
use oxicast.Types.{
  F64, F32, MediaInfo, MediaStatus, PlayerState, idle, playing, paused, buffering, QueueItem,
  RepeatMode,
}
use oxicast.Error.{Error, Result, ok, ok_or, no_application, no_media_session, load_failed}
use oxicast.Message.{CastMessage}
use oxicast.Serde.{SerdeJson}
use oxicast.Channel.Media
use oxicast.Channel.Receiver
use oxicast.State.{set_media_session_id}
use oxicast.Router.Parse.Fields.{get_str}
use oxicast.Router.Parse.Media.{parse_media_status}
use oxicast.Client.State.{
  Client, ◌>>=◌, >>=-ok, lift, get_transport_id, get_media_session_id, get_session_id,
}
use oxicast.Client.Request.{Reply, request}
use oxicast.Client.Device.{
  check_device_error, device_error_of, response_session, check_loaded, has_no_media,
}
use oxicast.Client.Receiver.{stop_app}
use oxicast.Client.Playback.{finish_load, load_media, stop_media, store_if_named}
use oxicast.Client.Queue.{queue_load}

check_loaded-ok :
    (s : MediaStatus) {u : Unit {0}}
    → check_loaded s ≡ ok u
    → (s.player_state ≢ idle) ⊎ (s.media ≢ none)
unfolding check_loaded
check_loaded-ok s e = loaded s.player_state s.media e
  where
    loaded :
        (p : PlayerState) (m : Option MediaInfo) → has_no_media p m ≡ ok _ → (p ≢ idle) ⊎ (m ≢ none)
    loaded idle none e = absurd (ground arith)
    loaded idle (some m) e = inr (λ q. cc)
    loaded playing m e = inl (λ q. cc)
    loaded paused m e = inl (λ q. cc)
    loaded buffering m e = inl (λ q. cc)

pub lift-ok :
    {V A : Type 0} (r : Result A) {a : A} {c c' : Client V}
    → lift r c ≡ (ok a, c')
    → (r ≡ ok a) × (c ≡ c')
lift-ok r e = (ap (λ p. p.0) e, ap (λ p. p.1) e)

pub ok-injective : {A : Type 0} {a b : A} → ok a ≡ ok b → a ≡ b
ok-injective e = ground arith

ok_or-ok : {A : Type 0} (o : Option A) (x : Error) {a : A} → ok_or o x ≡ ok a → o ≡ some a
ok_or-ok none x e = absurd (ground arith)
ok_or-ok (some a) x e = ap some (ok-injective e)

module _ (j : SerdeJson) (to_f32 : F64 → F32) (show_i64 : ℤ → String) where
  -- A load that succeeds returns the status that the response holds, and the status is one of a
  -- medium that the device accepted; the session that the response names, if any, is tracked.
  pub finish_load-ok :
      (missing : String) (json : j.Value) (c c' : Client j.Value) (s : MediaStatus)
      → finish_load j to_f32 show_i64 missing json c ≡ (ok s, c')
      → ((s.player_state ≢ idle) ⊎ (s.media ≢ none))
        × (parse_media_status j to_f32 json ≡ some s)
        × (check_device_error j show_i64 json ≡ ok tt)
        × (c' ≡ store_if_named (response_session j show_i64 json) c)
  unfolding finish_load
  finish_load-ok missing json c c' s e =
      let (u, c₁, e₁, f₁) = >>=-ok (lift (check_device_error j show_i64 json)) _ c e in
      let (status, c₂, e₂, f₂) =
        >>=-ok (lift (ok_or (parse_media_status j to_f32 json) (load_failed missing none))) _
          (store_if_named (response_session j show_i64 json) c₁) f₁ in
      let (v, c₃, e₃, f₃) = >>=-ok (lift (check_loaded status)) _ c₂ f₂ in
      let (checked, same₁) = lift-ok (check_device_error j show_i64 json) e₁ in
      let (parsed, same₂) =
        lift-ok (ok_or (parse_media_status j to_f32 json) (load_failed missing none)) e₂ in
      let (loaded, same₃) = lift-ok (check_loaded status) e₃ in
      let (returned, same₄) = lift-ok (ok status) f₃ in
      let is_s : status ≡ s = ok-injective returned in
      (
        subst (λ (t : MediaStatus). (t.player_state ≢ idle) ⊎ (t.media ≢ none)) is_s
            (check_loaded-ok status loaded),
        ok_or-ok (parse_media_status j to_f32 json) (load_failed missing none) parsed
            ∙ ap some is_s,
        checked,
        sym (same₂ ∙ same₃ ∙ same₄)
            ∙ ap (store_if_named (response_session j show_i64 json)) (sym same₁),
      )

  some-ne-none : {A : Type 0} (o : Option A) (x : Error) {a : A} → ok_or o x ≡ ok a → o ≢ none
  some-ne-none o x e n = absurd (ground arith)

  loaded :
      (build : ℕ → String → String → CastMessage) (missing : String) (reply : Reply j.Value)
      (c c' : Client j.Value) (s : MediaStatus)
      → (do
        t ← get_transport_id
        session ← get_session_id
        json ← request j to_f32 (λ id. build id t session) reply
        finish_load j to_f32 show_i64 missing json)
          c
        ≡ (ok s, c')
      → ((s.player_state ≢ idle) ⊎ (s.media ≢ none))
        × (c.transport_id ≢ none)
        × (c.session_id ≢ none)
  unfolding get_transport_id get_session_id
  loaded build missing reply c c' s e =
      let (t, c₁, e₁, f₁) = >>=-ok get_transport_id _ c e in
      let (session, c₂, e₂, f₂) = >>=-ok get_session_id _ c₁ f₁ in
      let (json, c₃, e₃, f₃) = >>=-ok (request j to_f32 (λ id. build id t session) reply) _ c₂ f₂ in
      let (there, same) = lift-ok (ok_or c.transport_id no_application) e₁ in
      let (in_session, _) = lift-ok (ok_or c₁.session_id no_application) e₂ in
      (
        (finish_load-ok missing json c₃ c' s f₃).0,
        some-ne-none c.transport_id no_application there,
        subst (λ (d : Client j.Value). d.session_id ≢ none) (sym same)
            (some-ne-none c₁.session_id no_application in_session),
      )

  -- A `stop_media` that succeeds leaves the tracked media session id at 0.
  pub stop_media-ok :
      (reply : Reply j.Value) (c c' : Client j.Value) (s : MediaStatus)
      → stop_media j to_f32 show_i64 reply c ≡ (ok s, c')
      → c'.state.media_session_id ≡ pos 0
  unfolding stop_media set_media_session_id
  stop_media-ok reply c c' s e =
      let (t, c₁, _, f₁) = >>=-ok get_transport_id _ c e in
      let (msid, c₂, _, f₂) = >>=-ok get_media_session_id _ c₁ f₁ in
      let (json, c₃, _, f₃) =
        >>=-ok (request j to_f32 (λ id. Media.stop j id t msid) reply) _ c₂ f₂ in
      let (u, c₄, _, f₄) = >>=-ok (lift (check_device_error j show_i64 json)) _ c₃ f₃ in
      let (_, same) = lift-ok (ok_or (parse_media_status j to_f32 json) no_media_session) f₄ in
      ap (λ (d : Client j.Value). d.state.media_session_id) (sym same)

  -- Stopping the application forgets its transport and session.
  pub stop_app-ok :
      (id : String) (reply : Reply j.Value) (c c' : Client j.Value) {u : Unit {0}}
      → stop_app j to_f32 show_i64 id reply c ≡ (ok u, c')
      → (c'.transport_id ≡ none) × (c'.session_id ≡ none)
  unfolding stop_app
  stop_app-ok id reply c c' e =
      let (json, c₁, _, f₁) =
        >>=-ok (request j to_f32 (λ i. Receiver.stop_app j i id) reply) _ c e in
      let (v, c₂, _, f₂) = >>=-ok (lift (check_device_error j show_i64 json)) _ c₁ f₁ in
      let same : record c₂ { transport_id = none; session_id = none } ≡ c' = ap (λ p. p.1) f₂ in
      (
        ap (λ (d : Client j.Value). d.transport_id) (sym same),
        ap (λ (d : Client j.Value). d.session_id) (sym same),
      )

  -- A `load_media` or a `queue_load` that succeeds had an application and a session to go to, and
  -- returns a status that is not idle or that names its medium.
  pub load-ok :
      (media : MediaInfo) (autoplay : Bool) (current_time : F64) (custom : Option j.Value)
      (items : List QueueItem) (start : ℕ) (mode : RepeatMode) (reply : Reply j.Value)
      (c c' : Client j.Value) (s : MediaStatus)
      → (load_media j to_f32 show_i64 media autoplay current_time custom reply c ≡ (ok s, c'))
        ⊎ (queue_load j to_f32 show_i64 items start mode reply c ≡ (ok s, c'))
      → ((s.player_state ≢ idle) ⊎ (s.media ≢ none))
        × (c.transport_id ≢ none)
        × (c.session_id ≢ none)
  unfolding load_media queue_load
  load-ok media autoplay current_time custom items start mode reply c c' s (inl e) =
      loaded (λ id t session. Media.load j id t session media autoplay current_time custom)
        "no media status in response" reply c c' s e
  load-ok media autoplay current_time custom items start mode reply c c' s (inr e) =
      loaded (λ id t session. Media.queue_load j id t session items start mode)
        "no media status in queue load response" reply c c' s e

-- An answer of the device is an error exactly if its type is one of these.
abbrev pub IsErrorType : Option String → Type 0
IsErrorType o =
    (o ≡ some "LOAD_FAILED")
    ⊎ (o ≡ some "LOAD_CANCELLED")
    ⊎ (o ≡ some "INVALID_REQUEST")
    ⊎ (o ≡ some "LAUNCH_ERROR")

module _ (j : SerdeJson) (show_i64 : ℤ → String) where
  -- `check_device_error` passes a response exactly if its type is none of `LOAD_FAILED`,
  -- `LOAD_CANCELLED`, `INVALID_REQUEST` and `LAUNCH_ERROR`.
  pub check_device_error-ok_iff :
      (json : j.Value)
      → (check_device_error j show_i64 json ≡ ok tt) ↔ (¬ IsErrorType (get_str j json "type"))
  unfolding check_device_error
  check_device_error-ok_iff json = passes (get_str j json "type")
    where
      passes : (o : Option String) → (device_error_of j show_i64 o json ≡ ok tt) ↔ (¬ IsErrorType o)
      passes none = ((λ e n. ground arith), (λ n. refl))
      passes (some k) = (
        (λ e n. ground (
          arith,
          str_eq_iff k "LOAD_FAILED",
          str_eq_iff k "LOAD_CANCELLED",
          str_eq_iff k "INVALID_REQUEST",
          str_eq_iff k "LAUNCH_ERROR",
        )),
        (λ n. ground (
          arith,
          str_eq_iff k "LOAD_FAILED",
          str_eq_iff k "LOAD_CANCELLED",
          str_eq_iff k "INVALID_REQUEST",
          str_eq_iff k "LAUNCH_ERROR",
        )),
      )
