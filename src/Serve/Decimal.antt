-- ===== src/Serve/Decimal.antt =====
-- `str::parse::<u64>`: an optional `+`, then at least one decimal digit, and no overflow.
use oxicast.Common.{
  ℕ, ◌+◌, ◌-◌, ◌*◌, ◌^◌, ◌<◌, ◌≤◌, ◌≡◌, ◌≢◌, refl, Bool, Option, none, some, List, [], ◌∷◌, ltb,
  leb, ◌==◌, ◌&&◌, if◌then◌else◌, arith, All,
}

abbrev pub is_digit : ℕ → Bool
is_digit c = leb b'0' c && leb c b'9'

unfoldable pub parse_digits : ℕ → List ℕ → Option ℕ
parse_digits acc [] = some acc
parse_digits acc (c ∷ s) =
    let rest = parse_digits (acc * 10 + (c - b'0')) s in
    if is_digit c && ltb (acc * 10 + (c - b'0')) (2 ^ 64) then rest else none

unfoldable pub parse_u64 : List ℕ → Option ℕ
unfolding parse_digits
parse_u64 [] = none
parse_u64 (c ∷ []) = if c == b'+' then none else parse_digits 0 (c ∷ [])
parse_u64 (c ∷ d ∷ s) =
    let plain = parse_digits 0 (c ∷ d ∷ s) in if c == b'+' then parse_digits 0 (d ∷ s) else plain

abbrev pub IsDigit : ℕ → Type 0
IsDigit c = (b'0' ≤ c) × (c ≤ b'9')

-- The number that a list of digits writes after `acc`.
abbrev pub value_from : ℕ → List ℕ → ℕ
value_from acc [] = acc
value_from acc (c ∷ s) = value_from (acc * 10 + (c - b'0')) s

value_from-ge : (acc : ℕ) (s : List ℕ) → acc ≤ value_from acc s
value_from-ge acc [] = omega arith
value_from-ge acc (c ∷ s) = omega (arith, value_from-ge (acc * 10 + (c - b'0')) s)

parse_digits_lem :
    (acc : ℕ) (s : List ℕ)
    → All IsDigit s
    → value_from acc s < 2 ^ 64
    → parse_digits acc s ≡ some (value_from acc s)
unfolding parse_digits
parse_digits_lem acc [] h b = refl
parse_digits_lem acc (c ∷ s) h b = ground (
  arith,
  parse_digits_lem (acc * 10 + (c - b'0')) s h.1 b,
  value_from-ge (acc * 10 + (c - b'0')) s,
)

-- Digits whose number fits a `u64` are read as that number.
pub parse_u64_lem :
    (s : List ℕ)
    → s ≢ []
    → All IsDigit s
    → value_from 0 s < 2 ^ 64
    → parse_u64 s ≡ some (value_from 0 s)
unfolding parse_u64
parse_u64_lem [] n h b = absurd (n refl)
parse_u64_lem (c ∷ []) n h b = ground (arith, parse_digits_lem 0 (c ∷ []) h b)
parse_u64_lem (c ∷ d ∷ s) n h b = ground (arith, parse_digits_lem 0 (c ∷ d ∷ s) h b)

parse_digits-bound :
    (acc : ℕ) (s : List ℕ) (n : ℕ) → acc < 2 ^ 64 → parse_digits acc s ≡ some n → n < 2 ^ 64
unfolding parse_digits
parse_digits-bound acc [] n h e = ground arith
parse_digits-bound acc (c ∷ s) n h e =
    ground (arith, parse_digits-bound (acc * 10 + (c - b'0')) s n)

-- A text whose number does not fit is refused: what is read is below 2^64.
pub parse_u64-bound : (s : List ℕ) (n : ℕ) → parse_u64 s ≡ some n → n < 2 ^ 64
unfolding parse_u64
parse_u64-bound [] n e = cc
parse_u64-bound (c ∷ []) n e = ground (arith, parse_digits-bound 0 (c ∷ []) n)
parse_u64-bound (c ∷ d ∷ s) n e =
    ground (arith, parse_digits-bound 0 (c ∷ d ∷ s) n, parse_digits-bound 0 (d ∷ s) n)
