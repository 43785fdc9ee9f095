-- ===== src/Serve/Registry/Kept.antt =====
-- A registered file stays registered.
use oxicast.Common.{
  ℕ, ◌+◌, ◌^◌, ◌<◌, ◌≤◌, ◌≡◌, ◌≢◌, refl, ◌∙◌, ap, String, false, Option, some, List, [], ◌∷◌,
  length, if◌then◌else◌, str_eq, str_eq_iff, str_eq_refl, arith, Bool-cases, inl, inr,
}
use oxicast.Error.{ok}
use oxicast.Serve
use oxicast.Serve.{FileEntry, Access, Response, get_file, answer_file}
use oxicast.Serve.Hex.{to_hex, to_hex-injective}
use oxicast.Serve.Registry.{
  FileServer, Call, entry_of, serve_file, url_of, remove_file, store_entry, fetch_add,
}

-- What happens next: a call of `serve_file`, or another server of the process takes a number.
pub data Step : Type 0 where
  registers : Call → Step
  elsewhere : Step

module _ (show_u16 : ℕ → String) where
  abbrev pub on_step : Step → ℕ → FileServer → ℕ × FileServer
  on_step (registers c) counter s = let (r, n, t) = serve_file show_u16 c counter s in (n, t)
  on_step elsewhere counter s = (fetch_add counter, s)

  unfoldable pub run : List Step → ℕ → FileServer → FileServer
  run [] counter s = s
  run (x ∷ xs) counter s = let (n, t) = on_step x counter s in run xs n t

get-remove_file :
    (id i : String) (files : List (String × FileEntry))
    → str_eq id i ≡ false
    → get_file i (remove_file id files) ≡ get_file i files
unfolding get_file remove_file
get-remove_file id i [] h = refl
get-remove_file id i ((k, e) ∷ files) h = elim (Bool-cases (str_eq k id)) [
  | inl q ↦
      let unlike : str_eq k i ≡ false = ap (λ x. str_eq x i) ((str_eq_iff k id).0 q) ∙ h in
      rw (q, unlike) (get-remove_file id i files h)
  | inr q ↦ rw q (ap (λ o. if str_eq k i then some e else o) (get-remove_file id i files h))
]

to_hex-unlike : (a b : ℕ) → a < 2 ^ 64 → b < 2 ^ 64 → a ≢ b → str_eq (to_hex a) (to_hex b) ≡ false
to_hex-unlike a b h k differ = elim (Bool-cases (str_eq (to_hex a) (to_hex b))) [
  | inl q ↦ absurd (differ (to_hex-injective a b h k ((str_eq_iff (to_hex a) (to_hex b)).0 q)))
  | inr q ↦ q
]

module _ (show_u16 : ℕ → String) where
  store_entry-other :
      (c : Call) (id i : String) (s : FileServer)
      → str_eq id i ≡ false
      → get_file i (store_entry show_u16 c id s).1.files ≡ get_file i s.files
  unfolding get_file
  store_entry-other c id i s h = elim (Bool-cases c.poisoned) [
    | inl q ↦ rw q
    | inr q ↦ rw (q, h) (get-remove_file id i s.files h)
  ]

  -- A step takes at most one number, and leaves the files of other numbers alone.
  step-kept :
      (x : Step) (n counter : ℕ) (s : FileServer)
      → n < counter
      → counter + 1 < 2 ^ 64
      → let (next, t) = on_step show_u16 x counter s in
        (n < next)
        × (next ≤ counter + 1)
        × (get_file (to_hex n) t.files ≡ get_file (to_hex n) s.files)
  unfolding serve_file
  step-kept elsewhere n counter s h small = (omega arith, omega arith, refl)
  step-kept (registers c) n counter s h small = elim (Bool-cases c.exists) [
    | inl q ↦ rw q (
      omega arith,
      omega arith,
      store_entry-other c (to_hex counter) (to_hex n) s (
          to_hex-unlike counter n (omega arith) (omega arith)
            (λ same. absurd (omega (arith, h, same)))),
    )
    | inr q ↦ rw q (h, omega arith, refl)
  ]

  run-kept :
      (xs : List Step) (n counter : ℕ) (s : FileServer)
      → n < counter
      → counter + length xs < 2 ^ 64
      → get_file (to_hex n) (run show_u16 xs counter s).files ≡ get_file (to_hex n) s.files
  unfolding run
  run-kept [] n counter s h small = refl
  run-kept (x ∷ xs) n counter s h small =
      let (later, next, same) = step-kept x n counter s h (omega (arith, small)) in
      run-kept xs n _ _ later (omega (arith, small, next)) ∙ same

  -- A call that succeeds gives the next id, and puts the file under it.
  pub serve_file-ok :
      (c : Call) (counter after : ℕ) (s t : FileServer) (url : String)
      → serve_file show_u16 c counter s ≡ (ok url, after, t)
      → (url ≡ url_of show_u16 t (to_hex counter))
        × (after ≡ fetch_add counter)
        × (get_file (to_hex counter) t.files ≡ some (entry_of c))
  unfolding serve_file get_file url_of
  serve_file-ok c counter after s t url e = ground (arith, str_eq_refl (to_hex counter))

  -- A registration that succeeds gives the URL of its file's id, and as long as the ids do not
  -- wrap, whatever is registered later, a request for that id is answered with that file.
  pub serve_file-kept :
      (c : Call) (counter after : ℕ) (s t : FileServer) (url : String) (xs : List Step)
      (header : Option (Option (List ℕ))) (disk : String → Access)
      → serve_file show_u16 c counter s ≡ (ok url, after, t)
      → counter + 1 + length xs < 2 ^ 64
      → (url ≡ url_of show_u16 t (to_hex counter))
        × (Serve.serve_file (to_hex counter) header false (run show_u16 xs after t).files disk
            ≡ answer_file header (disk c.path))
  unfolding Serve.serve_file
  serve_file-kept c counter after s t url xs header disk e small =
      let (same_url, next, same) = serve_file-ok c counter after s t url e in
      (
        same_url,
        ap (Serve.answer_entry header disk) (
            run-kept xs counter after t (omega (arith, next, small)) (omega (arith, next, small))
            ∙ same),
      )
