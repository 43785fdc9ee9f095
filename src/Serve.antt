-- ===== src/Serve.antt =====
-- src/serve.rs: the `Range` header and the answer to a request for a registered file. Header texts
-- are lists of code points, and the contents of a file a list of bytes.
pub mod Decimal
pub mod Hex
pub mod Registry
pub mod Range
pub mod Answer
use oxicast.Common.{
  ℕ, ◌+◌, ◌-◌, String, Bool, true, false, Option, none, some, List, [], ◌∷◌, ltb, leb, ◌==◌, ◌&&◌,
  if◌then◌else◌, and_then, option_map, is_some, str_eq, length, take, drop,
}
use Decimal.{parse_u64}

-- `str::strip_prefix`.
unfoldable pub strip_prefix : List ℕ → List ℕ → Option (List ℕ)
strip_prefix [] s = some s
strip_prefix (p ∷ ps) [] = none
strip_prefix (p ∷ ps) (c ∷ s) = if p == c then strip_prefix ps s else none

-- `splitn(2, '-')`, if it gives two parts.
unfoldable pub split_dash : List ℕ → Option (List ℕ × List ℕ)
split_dash [] = none
split_dash (c ∷ s) =
    let rest = option_map (λ (p : List ℕ × List ℕ). (c ∷ p.0, p.1)) (split_dash s) in
    if c == b'-' then some ([], s) else rest

abbrev pub bytes_prefix : List ℕ
bytes_prefix = b'b' ∷ b'y' ∷ b't' ∷ b'e' ∷ b's' ∷ b'=' ∷ []

abbrev pub is_empty {ℓ} : {A : Type ℓ} → List A → Bool
is_empty [] = true
is_empty (x ∷ xs) = false

-- `bytes=-500`: the last bytes. `saturating_sub` is subtraction on ℕ.
abbrev pub suffix_range : ℕ → ℕ → Option (ℕ × ℕ)
suffix_range file_size suffix =
    if leb (file_size - suffix) (file_size - 1)
    then some (file_size - suffix, file_size - 1)
    else none

abbrev pub bounded_range : ℕ → ℕ → ℕ → Option (ℕ × ℕ)
bounded_range file_size start end =
    if leb start end && ltb end file_size then some (start, end) else none

abbrev pub range_end : ℕ → List ℕ → Option ℕ
range_end file_size s = if is_empty s then some (file_size - 1) else parse_u64 s

abbrev pub range_of_parts : ℕ → List ℕ × List ℕ → Option (ℕ × ℕ)
range_of_parts file_size (first, second) =
    if is_empty first
    then and_then (parse_u64 second) (suffix_range file_size)
    else and_then (parse_u64 first)
        λ start. and_then (range_end file_size second) (bounded_range file_size start)

unfoldable pub parse_range : List ℕ → ℕ → Option (ℕ × ℕ)
parse_range header file_size =
    if file_size == 0
    then none
    else and_then (strip_prefix bytes_prefix header)
        λ s. and_then (split_dash s) (range_of_parts file_size)

pub record FileEntry : Type 0 where
  pub path : String
  pub content_type : String

-- What the file system answers: `seekable` says whether a seek would succeed.
pub data Access : Type 0 where
  open_failed metadata_failed : Access
  opened : (content : List ℕ) (seekable : Bool) → Access

-- The part of a `Response` that the handler decides: the status, the headers about the body's
-- extent, and the bytes of the body.
pub record Response : Type 0 where
  pub status : ℕ
  pub content_length : Option ℕ
  pub content_range : Option (Option (ℕ × ℕ) × ℕ)
  pub accept_ranges : Bool
  pub body : List ℕ

abbrev pub failure : ℕ → Response
failure code = record {
  status = code;
  content_length = none;
  content_range = none;
  accept_ranges = false;
  body = [];
}

abbrev pub partial_content : List ℕ → Bool → ℕ × ℕ → Response
partial_content content seekable (start, end) =
    if seekable
    then record {
      status = 206;
      content_length = some (end - start + 1);
      content_range = some (some (start, end), length content);
      accept_ranges = true;
      body = take (end - start + 1) (drop start content);
    }
    else failure 500

abbrev pub whole_content : List ℕ → Response
whole_content content = record {
  status = 200;
  content_length = some (length content);
  content_range = none;
  accept_ranges = true;
  body = content;
}

abbrev pub not_satisfiable : ℕ → Response
not_satisfiable file_size = record {
  status = 416;
  content_length = none;
  content_range = some (none, file_size);
  accept_ranges = false;
  body = [];
}

-- The answer for a `Range` header that is there or not, and the range that it parses to.
abbrev pub answer_range : List ℕ → Bool → Bool → Option (ℕ × ℕ) → Response
answer_range content seekable has_range_header none =
    if has_range_header then not_satisfiable (length content) else whole_content content
answer_range content seekable has_range_header (some range) = partial_content content seekable range

-- `header` is none if there is no `Range` header, and its text is none if it is not visible ASCII.
abbrev pub answer_file : Option (Option (List ℕ)) → Access → Response
answer_file header open_failed = failure 500
answer_file header metadata_failed = failure 500
answer_file header (opened content seekable) =
    answer_range content seekable (is_some header)
      (and_then (and_then header (λ text. text)) (λ s. parse_range s (length content)))

-- `files.get(&id)`.
unfoldable pub get_file : String → List (String × FileEntry) → Option FileEntry
get_file id [] = none
get_file id ((k, e) ∷ files) = if str_eq k id then some e else get_file id files

abbrev pub answer_entry : Option (Option (List ℕ)) → (String → Access) → Option FileEntry → Response
answer_entry header disk none = failure 404
answer_entry header disk (some e) = answer_file header (disk e.path)

-- `serve_file`; `poisoned` says whether the lock of the registry is.
unfoldable pub serve_file :
    (id : String)
    → Option (Option (List ℕ))
    → (poisoned : Bool) → List (String × FileEntry)
    → (String → Access)
    → Response
serve_file id header poisoned files disk =
    if poisoned then failure 500 else answer_entry header disk (get_file id files)
