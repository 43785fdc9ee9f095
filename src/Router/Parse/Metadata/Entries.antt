-- ===== src/Router/Parse/Metadata/Entries.antt =====
-- Reading a field of an object whose entries are known.
use oxicast.Common.{
  ℕ, ◌<◌, ◌^◌, String, ◌≡◌, refl, true, Option, none, some, List, [], ◌∷◌, ◌++◌, arith, str_eq,
  if◌then◌else◌, or_else, option_map, and_then,
}
use oxicast.Common.Int.{as_u32}
use oxicast.Types.{F64, f64_finite}
use oxicast.Serde.{SerdeJson, IsLawful, last_entry}
use oxicast.Channel.Metadata.{opt_entry}

-- What an optional number must satisfy to survive the wire.
abbrev pub OptHolds {ℓ} : {A : Type ℓ} → (A → Type 0) → Option A → Type 0
OptHolds P none = Unit
OptHolds P (some a) = P a

abbrev pub IsU32 : ℕ → Type 0
IsU32 n = n < 2 ^ 32

abbrev pub IsFinite : F64 → Type 0
IsFinite x = f64_finite x ≡ true

pub or_else-none {ℓ} : {A : Type ℓ} (o : Option A) → or_else o none ≡ o
or_else-none none = refl
or_else-none (some a) = refl

or_else_assoc {ℓ} :
    {A : Type ℓ} (o p q : Option A) → or_else (or_else o p) q ≡ or_else o (or_else p q)
or_else_assoc none p q = refl
or_else_assoc (some a) p q = refl

pub last_entry-append {ℓ} :
    {V : Type ℓ} (k : String) (es fs : List (String × V))
    → last_entry k (es ++ fs) ≡ or_else (last_entry k fs) (last_entry k es)
last_entry-append k [] fs = rw or_else-none
last_entry-append k ((i, v) ∷ es) fs =
    rw (last_entry-append k es fs) (or_else_assoc (last_entry k fs) (last_entry k es) _)

module _ (j : SerdeJson) where
  pub last_entry-opt {ℓ} :
      {A : Type ℓ} (k key : String) (into : A → j.Value) (o : Option A)
      → last_entry k (opt_entry j key into o) ≡ (if str_eq key k then option_map into o else none)
  last_entry-opt k key into none = ground arith
  last_entry-opt k key into (some v) = refl

module _ (j : SerdeJson) (laws : IsLawful j) where
  pub as_str-map : (o : Option String) → and_then (option_map j.string o) j.as_str ≡ o
  as_str-map none = refl
  as_str-map (some s) = laws.as_str-string s

  pub as_u32-map :
      (o : Option ℕ)
      → OptHolds IsU32 o
      → option_map as_u32 (and_then (option_map j.u64 o) j.as_u64) ≡ o
  as_u32-map none h = refl
  as_u32-map (some n) h = rw (laws.as_u64-u64 n (omega arith)) (ground arith)

  pub as_f64-map :
      (o : Option F64) → OptHolds IsFinite o → and_then (option_map j.f64 o) j.as_f64 ≡ o
  as_f64-map none h = refl
  as_f64-map (some x) h = laws.as_f64-f64 x h

-- A field of an object is the conversion of what was inserted under its key.
pub ruleset entry_laws = (last_entry-append, last_entry-opt, or_else-none)
