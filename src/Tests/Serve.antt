-- ===== src/Tests/Serve.antt =====
-- Runs of the file server, with header texts as lists of bytes.
use oxicast.Common.{
  ℕ, ◌-◌, ◌+◌, ◌≡◌, ◌≢◌, refl, arith, String, true, false, none, some, List, [], ◌∷◌, take, drop,
  ltb, leb, ◌==◌, ◌&&◌, if◌then◌else◌,
}
use oxicast.Serve.{
  FileEntry, Access, opened, get_file, serve_file, parse_range, strip_prefix, split_dash,
}
use oxicast.Serve.Decimal.{value_from, parse_u64, parse_digits}
use oxicast.Serve.Range.{header_of, parse_range_lem}
use oxicast.Serve.Answer.{HasLength, requested, serve_file-HasLength, serve_file-answers}

serving : Unit {0}
unfolding serve_file get_file parse_range strip_prefix split_dash parse_u64 parse_digits
serving = tt

-- The texts 2 and 10.
abbrev two : List ℕ
two = 50 ∷ []

abbrev ten : List ℕ
ten = 49 ∷ 48 ∷ []

abbrev movie : FileEntry
movie = record { path = "/m.mp4"; content_type = "video/mp4" }

abbrev files : List (String × FileEntry)
files = ("a1", movie) ∷ []

abbrev content : List ℕ
content = 10 ∷ 11 ∷ 12 ∷ 13 ∷ 14 ∷ []

abbrev disk : String → Access
disk path = opened content true

parse_range_tests :
    (parse_range (header_of two ten) 100 ≡ some (2, 10))
    × (parse_range (header_of two []) 100 ≡ some (2, 99))
    × (parse_range (header_of [] two) 100 ≡ some (98, 99))
    × (parse_range (header_of ten two) 100 ≡ none)
    × (parse_range (header_of two ten) 5 ≡ none)
    × ((serve_file "zz" none false files disk).status ≡ 404)
    × ((serve_file "a1" (some (some (header_of [] two))) false files disk).body ≡ 13 ∷ 14 ∷ [])
unfolding serving
parse_range_tests = (refl, refl, refl, refl, refl, refl, refl)

parse_range_lem_example :
    (parse_range (header_of two ten) 100 ≡ (
      if leb (value_from 0 two) (value_from 0 ten) && ltb (value_from 0 ten) 100
      then some (value_from 0 two, value_from 0 ten)
      else none))
    × (parse_range (header_of two []) 100
        ≡ (if ltb (value_from 0 two) 100 then some (value_from 0 two, 100 - 1) else none))
    × (parse_range (header_of [] ten) 100
        ≡ (if value_from 0 ten == 0 then none else some (100 - value_from 0 ten, 100 - 1)))
parse_range_lem_example =
    parse_range_lem 100 (omega arith) two ten ((omega arith, omega arith), tt)
      ((omega arith, omega arith), ((omega arith, omega arith), tt)) (omega arith) (omega arith)
      (λ e. cc) (λ e. cc)

serve_file-HasLength_example :
    HasLength (serve_file "a1" (some (some (header_of [] two))) false files disk)
serve_file-HasLength_example =
    serve_file-HasLength "a1" (some (some (header_of [] two))) false files disk

serve_file-answers_example :
    ((start end : ℕ)
      → requested (some (some (header_of [] two))) 5 ≡ some (start, end)
      → let r = serve_file "a1" (some (some (header_of [] two))) false files disk in
        (r.status ≡ 206)
        × (r.content_length ≡ some (end - start + 1))
        × (r.body ≡ take (end - start + 1) (drop start content))
        × (r.content_range ≡ some (some (start, end), 5)))
    × (some (some (header_of [] two)) ≡ none
        → let r = serve_file "a1" (some (some (header_of [] two))) false files disk in
          (r.status ≡ 200)
          × (r.content_length ≡ some 5)
          × (r.body ≡ content)
          × (r.content_range ≡ none))
    × (some (some (header_of [] two)) ≢ none
        → requested (some (some (header_of [] two))) 5 ≡ none
        → let r = serve_file "a1" (some (some (header_of [] two))) false files disk in
          (r.status ≡ 416)
          × (r.content_length ≡ none)
          × (r.body ≡ [])
          × (r.content_range ≡ some (none, 5)))
unfolding get_file
serve_file-answers_example =
    serve_file-answers "a1" (some (some (header_of [] two))) files disk movie content refl refl
