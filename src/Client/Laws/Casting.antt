-- ===== src/Client/Laws/Casting.antt =====
-- What a cast file has to do with the server that is returned.
use oxicast.Common.{
  ℕ, ◌+◌, ◌^◌, ◌<◌, ◌≡◌, ◌∙◌, ap, sym, String, Bool, false, Option, none, List, length, arith,
}
use mathlib.Core.Path.{ap₂}
use oxicast.Common.Int.{ℤ}
use oxicast.Types.{F64, F32, MediaStatus}
use oxicast.Types.Media
use oxicast.Error.{Result, ok, err}
use oxicast.Serde.{SerdeJson}
use oxicast.Serve
use oxicast.Serve.{Access, answer_file}
use oxicast.Serve.Hex.{to_hex}
use oxicast.Serve.Registry.{FileServer, Net, Call, start, serve_file, url_of, fetch_add}
use oxicast.Serve.Registry.Kept.{Step, run, serve_file-ok, serve_file-kept}
use oxicast.Client.State.{Client, Command, >>=-ok, lift}
use oxicast.Client.Request.{Reply}
use oxicast.Client.Laws.Sessions.{lift-ok, ok-injective}
use oxicast.Client.Playback.{load_media}
use oxicast.Client.Casting.{serve_and_cast, registration}

registration-ok :
    (r : Result String × ℕ × FileServer) {p : String × FileServer}
    → registration r ≡ ok p
    → (after : ℕ) × (r ≡ (ok p.0, after, p.1))
registration-ok (ok url, after, t) e = (after, ap (λ q. (ok q.0, after, q.1)) (ok-injective e))
registration-ok (err x, after, t) e = absurd (ground arith)

module _ (j : SerdeJson) (to_f32 : F64 → F32) (show_i64 : ℤ → String) (show_u16 : ℕ → String) where
  abbrev load_url :
      Call
      → (autoplay : Bool) → (current_time : F64) → Reply j.Value
      → (url : String) → Command j.Value MediaStatus
  load_url call autoplay current_time reply url =
      load_media j to_f32 show_i64 (Media.new url call.content_type) autoplay current_time none
        reply

  -- A `serve_and_cast` that succeeds is a `load_media` of the URL that the returned server gives to
  -- the file: as long as the file ids do not wrap, whatever is registered later, a request for that
  -- id is answered with the file that was cast.
  pub serve_and_cast-ok :
      (net : Net) (call : Call) (autoplay : Bool) (current_time : F64) (reply : Reply j.Value)
      (counter : ℕ) (c c' : Client j.Value) (t : FileServer) (status : MediaStatus) (xs : List Step)
      (header : Option (Option (List ℕ))) (disk : String → Access)
      → serve_and_cast j to_f32 show_i64 show_u16 net call autoplay current_time reply counter c
        ≡ (ok (t, status), c')
      → counter + 1 + length xs < 2 ^ 64
      → let media = Media.new (url_of show_u16 t (to_hex counter)) call.content_type in
        (load_media j to_f32 show_i64 media autoplay current_time none reply c ≡ (ok status, c'))
        × (Serve.serve_file
              (to_hex counter)
              header
              false
              (run show_u16 xs (fetch_add counter) t).files
              disk
            ≡ answer_file header (disk call.path))
  unfolding serve_and_cast
  serve_and_cast-ok net call autoplay current_time reply counter c c' t status xs header disk e
        small =
      let (server, c₁, e₁, f₁) = >>=-ok (lift (start net)) _ c e in
      let ((url, s), c₂, e₂, f₂) =
        >>=-ok (lift (registration (serve_file show_u16 call counter server))) _ c₁ f₁ in
      let (played, c₃, e₃, f₃) =
        >>=-ok
          (load_media j to_f32 show_i64 (Media.new url call.content_type) autoplay current_time none
            reply)
          _ c₂ f₂ in
      let (_, same₁) = lift-ok (start net) e₁ in
      let (called, same₂) = lift-ok (registration (serve_file show_u16 call counter server)) e₂ in
      let (returned, same₃) = lift-ok (ok (s, played)) f₃ in
      let (after, result) = registration-ok (serve_file show_u16 call counter server) called in
      let (same_url, next, _) = serve_file-ok show_u16 call counter after server s url result in
      let (_, served) =
        serve_file-kept show_u16 call counter after server s url xs header disk result small in
      let is_t : s ≡ t = ap (λ (p : FileServer × MediaStatus). p.0) (ok-injective returned) in
      let is_status : played ≡ status =
        ap (λ (p : FileServer × MediaStatus). p.1) (ok-injective returned) in
      (
        ap₂ (load_url call autoplay current_time reply)
              (ap (λ s. url_of show_u16 s (to_hex counter)) (sym is_t) ∙ sym same_url)
              (same₁ ∙ same₂)
            ∙ e₃
            ∙ ap₂ (λ p d. (ok p, d)) is_status same₃,
        ap₂ (λ n s. Serve.serve_file (to_hex counter) header false (run show_u16 xs n s).files disk)
              (sym next) (sym is_t)
            ∙ served,
      )
