-- ===== src/Serve/Range.antt =====
-- What `parse_range` accepts, and what it makes of it.
use oxicast.Common.{
  ℕ, ◌-◌, ◌^◌, ◌<◌, ◌≤◌, ◌≡◌, ◌≢◌, refl, ◌∙◌, none, some, List, [], ◌∷◌, ◌++◌, ltb, leb, ◌==◌, ◌&&◌,
  if◌then◌else◌, arith, All, and_then, and_then-some, Bool-cases, inl, inr,
}
use oxicast.Serve.Decimal.{parse_u64, parse_u64_lem, IsDigit, value_from}
use oxicast.Serve.{
  parse_range, strip_prefix, split_dash, bytes_prefix, range_of_parts, suffix_range, bounded_range,
  range_end,
}

range_of_parts_bounds :
    (file_size : ℕ) (parts : List ℕ × List ℕ) (start end : ℕ)
    → 0 < file_size
    → range_of_parts file_size parts ≡ some (start, end)
    → (start ≤ end) × (end < file_size)
range_of_parts_bounds file_size ([], second) start end h e =
    let (suffix, _, f) = and_then-some (parse_u64 second) (suffix_range file_size) e in
    (ground arith, ground arith)
range_of_parts_bounds file_size (c ∷ first, second) start end h e =
    let (from, _, f) = and_then-some (parse_u64 (c ∷ first)) _ e in
    let (to, _, g) = and_then-some (range_end file_size second) (bounded_range file_size from) f in
    (ground arith, ground arith)

-- A range that parses is not empty and lies in the file.
pub parse_range_bounds :
    (header : List ℕ) (file_size start end : ℕ)
    → parse_range header file_size ≡ some (start, end)
    → (start ≤ end) × (end < file_size)
unfolding parse_range
parse_range_bounds header file_size start end e = elim (Bool-cases (file_size == 0)) [
  | inl z ↦ absurd (ground arith)
  | inr nz ↦
      let e' : and_then (strip_prefix bytes_prefix header)
            (λ s. and_then (split_dash s) (range_of_parts file_size))
          ≡ some (start, end) =
        ground arith in
      let (s, _, f) = and_then-some (strip_prefix bytes_prefix header) _ e' in
      let (parts, _, g) = and_then-some (split_dash s) (range_of_parts file_size) f in
      range_of_parts_bounds file_size parts start end (ground arith) g
]

split_dash_lem : (ds s : List ℕ) → All IsDigit ds → split_dash (ds ++ b'-' ∷ s) ≡ some (ds, s)
unfolding split_dash
split_dash_lem [] s h = refl
split_dash_lem (c ∷ ds) s h = ground (arith, split_dash_lem ds s h.1)

-- The header `bytes=a-b`, for digits `a` and `b`.
abbrev pub header_of : List ℕ → List ℕ → List ℕ
header_of a b = bytes_prefix ++ a ++ b'-' ∷ b

parse_range-header_of :
    (a b : List ℕ) (file_size : ℕ)
    → All IsDigit a
    → 0 < file_size
    → parse_range (header_of a b) file_size ≡ range_of_parts file_size (a, b)
unfolding parse_range strip_prefix
parse_range-header_of a b file_size h p = ground (arith, split_dash_lem a b h)

module _ (file_size : ℕ) (nonempty : 0 < file_size) (a b : List ℕ) (a_digits : All IsDigit a)
    (b_digits : All IsDigit b) (a_fits : value_from 0 a < 2 ^ 64)
    (b_fits : value_from 0 b < 2 ^ 64) where
  -- `bytes=a-b` is the range from a to b, if that is not empty and lies in the file.
  parse_range-closed :
      a ≢ []
      → b ≢ []
      → parse_range (header_of a b) file_size ≡ (
          if leb (value_from 0 a) (value_from 0 b) && ltb (value_from 0 b) file_size
          then some (value_from 0 a, value_from 0 b)
          else none)
  parse_range-closed na nb =
      parse_range-header_of a b file_size a_digits nonempty
      ∙ closed a b na nb (parse_u64_lem a na a_digits a_fits) (parse_u64_lem b nb b_digits b_fits)
    where
      closed :
          (a b : List ℕ)
          → a ≢ []
          → b ≢ []
          → parse_u64 a ≡ some (value_from 0 a)
          → parse_u64 b ≡ some (value_from 0 b)
          → range_of_parts file_size (a, b)
            ≡ bounded_range file_size (value_from 0 a) (value_from 0 b)
      closed [] b na nb p q = absurd (na refl)
      closed (c ∷ a) [] na nb p q = absurd (nb refl)
      closed (c ∷ a) (d ∷ b) na nb p q = rw (p, q)

  -- `bytes=a-` is the range from a to the end of the file, if a lies in the file.
  parse_range-open :
      a ≢ []
      → parse_range (header_of a []) file_size
        ≡ (if ltb (value_from 0 a) file_size then some (value_from 0 a, file_size - 1) else none)
  parse_range-open na =
      parse_range-header_of a [] file_size a_digits nonempty
      ∙ open_end a na (parse_u64_lem a na a_digits a_fits)
    where
      open_end :
          (a : List ℕ)
          → a ≢ []
          → parse_u64 a ≡ some (value_from 0 a)
          → range_of_parts file_size (a, []) ≡ (
              if ltb (value_from 0 a) file_size then some (value_from 0 a, file_size - 1) else none)
      open_end [] na p = absurd (na refl)
      open_end (c ∷ a) na p = rw p (ground arith)

  -- `bytes=-b` is the last b bytes, or the whole file if it is shorter, and no range if b is 0.
  parse_range-suffix :
      b ≢ []
      → parse_range (header_of [] b) file_size
        ≡ (if value_from 0 b == 0 then none else some (file_size - value_from 0 b, file_size - 1))
  parse_range-suffix nb =
      parse_range-header_of [] b file_size tt nonempty
      ∙ rw (parse_u64_lem b nb b_digits b_fits) (ground arith)

  -- For a file that is not empty and digits a and b whose numbers fit a `u64`: `bytes=a-b` is the
  -- range from a to b, if that is not empty and lies in the file; `bytes=a-` goes from a to the end
  -- of the file, if a lies in the file; `bytes=-b` is the last b bytes, or the whole file if it is
  -- shorter, and no range if b is 0.
  pub parse_range_lem :
      a ≢ []
      → b ≢ []
      → (parse_range (header_of a b) file_size ≡ (
          if leb (value_from 0 a) (value_from 0 b) && ltb (value_from 0 b) file_size
          then some (value_from 0 a, value_from 0 b)
          else none))
        × (parse_range (header_of a []) file_size ≡ (
            if ltb (value_from 0 a) file_size then some (value_from 0 a, file_size - 1) else none))
        × (parse_range (header_of [] b) file_size ≡ (
            if value_from 0 b == 0 then none else some (file_size - value_from 0 b, file_size - 1)))
  parse_range_lem na nb = (parse_range-closed na nb, parse_range-open na, parse_range-suffix nb)
