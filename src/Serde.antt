-- ===== src/Serde.antt =====
-- What the program uses of the serde_json crate, which is not in the repository: the operations as a
-- record, and the documented behaviour that the proofs rely on as a record of laws.
pub mod Instance
use oxicast.Common.{
  ℕ, ◌^◌, ◌<◌, String, ◌≡◌, Bool, true, Option, none, some, List, [], ◌∷◌, str_eq, if◌then◌else◌,
  or_else,
}
use oxicast.Common.Int.{ℤ, IsI32}
use oxicast.Types.{F64, F32, f64_finite}

-- The last entry of a key: inserting into a `serde_json::Map` replaces an earlier value.
module _ {ℓ} {V : Type ℓ} where
  abbrev pub last_entry : String → List (String × V) → Option V
  last_entry k [] = none
  last_entry k ((j, v) ∷ es) = or_else (last_entry k es) (if str_eq j k then some v else none)

pub record SerdeJson : Type 1 where
  pub Value : Type 0
  -- `serde_json::from_str::<Value>(s).ok()` and `Value::to_string`.
  pub from_str : String → Option Value
  pub to_string : Value → String
  -- `Value::get` with a key, and the accessors of a value.
  pub get : Value → String → Option Value
  pub as_str : Value → Option String
  pub as_bool : Value → Option Bool
  pub as_u64 : Value → Option ℕ
  pub as_i64 : Value → Option ℤ
  pub as_f64 : Value → Option F64
  pub as_array : Value → Option (List Value)
  pub is_object : Value → Bool
  -- A map with these entries inserted in order, and the other conversions of `json!`.
  pub object : List (String × Value) → Value
  pub array : List Value → Value
  pub string : String → Value
  pub bool : Bool → Value
  pub u64 : ℕ → Value
  pub i64 : ℤ → Value
  pub f64 : F64 → Value
  pub f32 : F32 → Value
  -- `value[key] = new`, of an object.
  pub set : Value → String → Value → Value

-- The accessors give back what the conversions were given.
pub record IsLawful (j : SerdeJson) : Type 0 where
  pub get-object :
      (es : List (String × j.Value)) (k : String) → j.get (j.object es) k ≡ last_entry k es
  pub get-set :
      (v w : j.Value) (k i : String)
      → j.is_object v ≡ true
      → j.get (j.set v k w) i ≡ (if str_eq k i then some w else j.get v i)
  pub as_str-string : (s : String) → j.as_str (j.string s) ≡ some s
  pub as_array-array : (vs : List j.Value) → j.as_array (j.array vs) ≡ some vs
  pub as_u64-u64 : (n : ℕ) → n < 2 ^ 64 → j.as_u64 (j.u64 n) ≡ some n
  pub as_u64-i64 : (n : ℕ) → n < 2 ^ 63 → j.as_u64 (j.i64 (ℤ.pos n)) ≡ some n
  pub as_i64-i64 : (z : ℤ) → IsI32 z → j.as_i64 (j.i64 z) ≡ some z
  pub as_bool-bool : (b : Bool) → j.as_bool (j.bool b) ≡ some b
  pub as_f64-f64 : (x : F64) → f64_finite x ≡ true → j.as_f64 (j.f64 x) ≡ some x
