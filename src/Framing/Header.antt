-- ===== src/Framing/Header.antt =====
-- The four header bytes, and the step that reads them.
use oxicast.Common.{ℕ, ◌^◌, ◌<◌, ◌≡◌, arith, [], ◌∷◌, All, length}
use oxicast.Framing.Bytes.{to_be_bytes, from_be_bytes}
use oxicast.Framing.{Stream, Prost, done, read_message, check_len}

abbrev pub IsByte : ℕ → Type 0
IsByte b = b < 256

-- Every `u32` comes back from its big-endian bytes.
pub from_be_bytes-to_be_bytes : (n : ℕ) → n < 2 ^ 32 → from_be_bytes (to_be_bytes n) ≡ n
unfolding from_be_bytes to_be_bytes
from_be_bytes-to_be_bytes n h = omega arith

-- And every four bytes from the number that they write.
pub to_be_bytes-from_be_bytes :
    (a b c d : ℕ)
    → All IsByte (a ∷ b ∷ c ∷ d ∷ [])
    → to_be_bytes (from_be_bytes (a ∷ b ∷ c ∷ d ∷ [])) ≡ a ∷ b ∷ c ∷ d ∷ []
unfolding from_be_bytes to_be_bytes
to_be_bytes-from_be_bytes a b c d h = ground arith

module _ (s : Stream) (p : Prost) where
  pub header_step :
      (n : ℕ) (r r₁ : s.Reader)
      → s.read_exact (length (to_be_bytes n)) r ≡ (done (to_be_bytes n), r₁)
      → n < 2 ^ 32
      → read_message s p r ≡ check_len s p n r₁
  unfolding read_message to_be_bytes
  header_step n r r₁ e h =
      let e' : s.read_exact 4 r ≡ (done (to_be_bytes n), r₁) = e in
      rw (e', from_be_bytes-to_be_bytes n h)
