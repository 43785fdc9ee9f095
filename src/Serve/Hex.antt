-- ===== src/Serve/Hex.antt =====
-- `format!("{:x}", n)` for a `u64`, and that it tells numbers apart.
use Prim.Native.Char.{Char, code}
use oxicast.Common.{
  ℕ, zero, suc, ◌+◌, ◌-◌, ◌*◌, ◌/◌, ◌%◌, ◌^◌, ◌<◌, ◌≡◌, refl, ◌∙◌, sym, ap, String, ltb,
  if◌then◌else◌, arith, Bool-cases, inl, inr, List, [], ◌∷◌, length,
}

abbrev digits : List Char
digits =
    "0" ∷ "1" ∷ "2" ∷ "3" ∷ "4" ∷ "5" ∷ "6" ∷ "7" ∷ "8" ∷ "9" ∷ "a" ∷ "b" ∷ "c" ∷ "d" ∷ "e" ∷ "f"
    ∷ []

-- The digit of a number, which is that many places into the list.
unfoldable pub digit_at : ℕ → List Char → Char
digit_at n [] = "0"
digit_at zero (c ∷ cs) = c
digit_at (suc n) (c ∷ cs) = digit_at n cs

abbrev hex_digit : ℕ → Char
hex_digit n = digit_at n digits

-- The digits of a number in front of a text, at most as many as the fuel.
unfoldable pub hex_before : (fuel n : ℕ) → String → String
hex_before zero n s = s
hex_before (suc fuel) n s =
    let rest = hex_before fuel (n / 16) (String.◌∷◌ (hex_digit (n % 16)) s) in
    if ltb n 16 then String.◌∷◌ (hex_digit n) s else rest

-- 16 digits are enough for a `u64`.
unfoldable pub to_hex : ℕ → String
unfolding hex_before
to_hex n = hex_before 16 n ""

hex_value : Char → ℕ
hex_value c = if ltb (code c) 97 then code c - 48 else code c - 87

-- The number that a text's digits write after `acc`.
value_from : ℕ → String → ℕ
value_from acc String.[] = acc
value_from acc (String.◌∷◌ c s) = value_from (acc * 16 + hex_value c) s

-- The values of these digits are the numbers from k on.
abbrev Counts : ℕ → List Char → Type 0
Counts k [] = Unit
Counts k (c ∷ cs) = (hex_value c ≡ k) × Counts (suc k) cs

hex_value-digit_at :
    (k n : ℕ) (cs : List Char) → Counts k cs → n < length cs → hex_value (digit_at n cs) ≡ k + n
unfolding digit_at
hex_value-digit_at k n [] h small = absurd (omega (arith, small))
hex_value-digit_at k zero (c ∷ cs) h small = omega (arith, h.0)
hex_value-digit_at k (suc n) (c ∷ cs) h small =
    omega (arith, hex_value-digit_at (suc k) n cs h.1 (omega (arith, small)))

digits-Counts : Counts 0 digits
unfolding hex_value
digits-Counts =
    ((
      refl,
      (
        refl,
        (
          refl,
          (
            refl,
            (
              refl,
              (
                refl,
                (refl, (refl, (refl, (refl, (refl, (refl, (refl, (refl, (refl, (refl, tt)))))))))),
              ),
            ),
          ),
        ),
      ),
    ))

hex_value-hex_digit : (n : ℕ) → n < 16 → hex_value (hex_digit n) ≡ n
hex_value-hex_digit n h = omega (arith, hex_value-digit_at 0 n digits digits-Counts h)

-- 16 to that power.
power : ℕ → ℕ
power zero = 1
power (suc fuel) = 16 * power fuel

value_from-hex_before :
    (fuel n : ℕ) (s : String) → n < power fuel → value_from 0 (hex_before fuel n s) ≡ value_from n s
unfolding value_from hex_before power
value_from-hex_before zero n s h = ap (λ i. value_from i s) (omega arith)
value_from-hex_before (suc fuel) n s h = elim (Bool-cases (ltb n 16)) [
  | inl e ↦ rw e (ap (λ i. value_from i s) (omega (arith, hex_value-hex_digit n (ground arith))))
  | inr e ↦ rw e (
      value_from-hex_before fuel (n / 16) (String.◌∷◌ (hex_digit (n % 16)) s) (omega arith)
      ∙ ap (λ i. value_from i s) (omega (arith, hex_value-hex_digit (n % 16) (omega arith))))
]

-- Two numbers that fit a `u64` have the same digits only if they are the same.
pub to_hex-injective : (a b : ℕ) → a < 2 ^ 64 → b < 2 ^ 64 → to_hex a ≡ to_hex b → a ≡ b
unfolding to_hex value_from power
to_hex-injective a b h k e =
    sym (value_from-hex_before 16 a "" (omega (arith, h)))
    ∙ ap (value_from 0) e
    ∙ value_from-hex_before 16 b "" (omega (arith, k))
