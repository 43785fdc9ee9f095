-- ===== src/Serve/Answer.antt =====
-- What `serve_file` sends: the statuses, and the bytes of the body.
use oxicast.Common.{
  ℕ, suc, zero, ◌+◌, ◌-◌, ◌<◌, ◌≤◌, ◌≡◌, ◌≢◌, refl, ap, ◌∙◌, String, Bool, true, false, Option,
  none, some, List, [], ◌∷◌, arith, length, take, drop, and_then, is_some,
}
use oxicast.Serve.Range.{parse_range_bounds}
use oxicast.Serve.{
  FileEntry, Access, open_failed, metadata_failed, opened, Response, parse_range, serve_file,
  get_file, answer_file, answer_entry, answer_range,
}

length-drop : (n : ℕ) (xs : List ℕ) → length (drop n xs) ≡ length xs - n
length-drop zero xs = omega arith
length-drop (suc n) [] = omega arith
length-drop (suc n) (x ∷ xs) = omega (arith, length-drop n xs)

length-take : (n : ℕ) (xs : List ℕ) → n ≤ length xs → length (take n xs) ≡ n
length-take zero xs h = refl
length-take (suc n) [] h = absurd (omega arith)
length-take (suc n) (x ∷ xs) h = ap suc (length-take n xs (omega arith))

window_length :
    (content : List ℕ) (start end : ℕ)
    → start ≤ end
    → end < length content
    → length (take (end - start + 1) (drop start content)) ≡ end - start + 1
window_length content start end h k =
    length-take (end - start + 1) (drop start content) (omega (arith, length-drop start content))

-- The text of a `Range` header that is there and readable, parsed.
abbrev pub requested : Option (Option (List ℕ)) → ℕ → Option (ℕ × ℕ)
requested header file_size =
    and_then (and_then header (λ text. text)) (λ s. parse_range s file_size)

requested_bounds :
    (header : Option (Option (List ℕ))) (n start end : ℕ)
    → requested header n ≡ some (start, end)
    → (start ≤ end) × (end < n)
requested_bounds none n start end e = cc
requested_bounds (some none) n start end e = cc
requested_bounds (some (some s)) n start end e = parse_range_bounds s n start end e

-- A body is as long as the `Content-Length` header says, where there is one.
abbrev pub HasLength : Response → Type 0
HasLength r = (n : ℕ) → r.content_length ≡ some n → length r.body ≡ n

answer_range-HasLength :
    (content : List ℕ) (seekable has_range : Bool) (o : Option (ℕ × ℕ))
    → ((start end : ℕ) → o ≡ some (start, end) → (start ≤ end) × (end < length content))
    → HasLength (answer_range content seekable has_range o)
answer_range-HasLength content seekable true none h n e = cc
answer_range-HasLength content seekable false none h n e = ground arith
answer_range-HasLength content true has_range (some (start, end)) h n e =
    let (p, q) = h start end refl in window_length content start end p q ∙ ground arith
answer_range-HasLength content false has_range (some (start, end)) h n e = cc

answer_file-HasLength :
    (header : Option (Option (List ℕ))) (a : Access) → HasLength (answer_file header a)
answer_file-HasLength header open_failed n e = cc
answer_file-HasLength header metadata_failed n e = cc
answer_file-HasLength header (opened content seekable) n e =
    answer_range-HasLength content seekable (is_some header) (requested header (length content))
      (requested_bounds header (length content)) n e

answer_entry-HasLength :
    (header : Option (Option (List ℕ))) (disk : String → Access) (o : Option FileEntry)
    → HasLength (answer_entry header disk o)
answer_entry-HasLength header disk none n e = cc
answer_entry-HasLength header disk (some entry) n e =
    answer_file-HasLength header (disk entry.path) n e

-- Whatever is asked, the body of an answer is exactly as long as its `Content-Length` header says,
-- where it has one.
pub serve_file-HasLength :
    (id : String) (header : Option (Option (List ℕ))) (poisoned : Bool)
    (files : List (String × FileEntry)) (disk : String → Access)
    → HasLength (serve_file id header poisoned files disk)
unfolding serve_file
serve_file-HasLength id header true files disk n e = cc
serve_file-HasLength id header false files disk n e =
    answer_entry-HasLength header disk (get_file id files) n e

is_some_of_ne {ℓ} : {A : Type ℓ} (o : Option A) → o ≢ none → is_some o ≡ true
is_some_of_ne none h = absurd (h refl)
is_some_of_ne (some a) h = refl

module _ (id : String) (header : Option (Option (List ℕ))) (files : List (String × FileEntry))
    (disk : String → Access) (entry : FileEntry) (content : List ℕ)
    (registered : get_file id files ≡ some entry)
    (readable : disk entry.path ≡ opened content true) where
  -- A registered file that can be opened and read is answered by 206 with the bytes of its range,
  -- by 200 with all of it, or by 416 with nothing, as the `Range` header is a range of the file, is
  -- missing, or is neither; with the `Content-Length` and `Content-Range` that this asks for.
  pub serve_file-answers :
      ((start end : ℕ)
        → requested header (length content) ≡ some (start, end)
        → let r = serve_file id header false files disk in
          (r.status ≡ 206)
          × (r.content_length ≡ some (end - start + 1))
          × (r.body ≡ take (end - start + 1) (drop start content))
          × (r.content_range ≡ some (some (start, end), length content)))
      × (header ≡ none
          → let r = serve_file id header false files disk in
            (r.status ≡ 200)
            × (r.content_length ≡ some (length content))
            × (r.body ≡ content)
            × (r.content_range ≡ none))
      × (header ≢ none
          → requested header (length content) ≡ none
          → let r = serve_file id header false files disk in
            (r.status ≡ 416)
            × (r.content_length ≡ none)
            × (r.body ≡ [])
            × (r.content_range ≡ some (none, length content)))
  unfolding serve_file
  serve_file-answers = (
    (λ start end e.
        rw (registered, answer_entry, readable, answer_file, e) (refl, refl, refl, refl)),
    (λ e. rw (registered, answer_entry, readable, answer_file, e) (refl, refl, refl, refl)),
    (λ n e.
        rw (registered, answer_entry, readable, answer_file, e, is_some_of_ne header n)
          (refl, refl, refl, refl)),
  )
