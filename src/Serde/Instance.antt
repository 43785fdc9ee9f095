-- ===== src/Serde/Instance.antt =====
-- A concrete type of JSON values that meets the laws, for tests and examples. The reader of texts is
-- an argument, so that an example names the texts that it reads.
use oxicast.Common.{
  ℕ, String, ◌≡◌, refl, Bool, true, false, Option, none, some, List, [], ◌∷◌, arith, str_eq,
  if◌then◌else◌, ap,
}
use oxicast.Common.Int.{ℤ}
use oxicast.Types.{F64, F32}
use oxicast.Serde.{SerdeJson, IsLawful, last_entry}

mutual
  pub data Json : Type 0 where
    null : Json
    bool : Bool → Json
    u64 : ℕ → Json
    i64 : ℤ → Json
    f64 : F64 → Json
    f32 : F32 → Json
    str : String → Json
    arr : Items → Json
    obj : Fields → Json

  pub data Items : Type 0 where
    nil : Items
    cons : Json → Items → Items

  pub data Fields : Type 0 where
    end : Fields
    field : String → Json → Fields → Fields

abbrev to_items : List Json → Items
to_items [] = nil
to_items (v ∷ vs) = cons v (to_items vs)

abbrev from_items : Items → List Json
from_items nil = []
from_items (cons v vs) = v ∷ from_items vs

abbrev to_fields : List (String × Json) → Fields
to_fields [] = end
to_fields ((k, v) ∷ es) = field k v (to_fields es)

abbrev from_fields : Fields → List (String × Json)
from_fields end = []
from_fields (field k v fs) = (k, v) ∷ from_fields fs

abbrev json_get : Json → String → Option Json
json_get (obj fs) k = last_entry k (from_fields fs)
json_get _ k = none

abbrev json_as_str : Json → Option String
json_as_str (str s) = some s
json_as_str _ = none

abbrev json_as_bool : Json → Option Bool
json_as_bool (bool b) = some b
json_as_bool _ = none

abbrev json_as_u64 : Json → Option ℕ
json_as_u64 (u64 n) = some n
json_as_u64 (i64 (ℤ.pos n)) = some n
json_as_u64 _ = none

abbrev json_as_i64 : Json → Option ℤ
json_as_i64 (i64 z) = some z
json_as_i64 (u64 n) = some (ℤ.pos n)
json_as_i64 _ = none

abbrev json_as_f64 : Json → Option F64
json_as_f64 (f64 x) = some x
json_as_f64 _ = none

abbrev json_as_array : Json → Option (List Json)
json_as_array (arr vs) = some (from_items vs)
json_as_array _ = none

abbrev json_is_object : Json → Bool
json_is_object (obj fs) = true
json_is_object _ = false

abbrev append_field : Fields → String → Json → Fields
append_field end k w = field k w end
append_field (field j v fs) k w = field j v (append_field fs k w)

abbrev json_set : Json → String → Json → Json
json_set (obj fs) k w = obj (append_field fs k w)
json_set v k w = v

abbrev pub sample : (String → Option Json) → SerdeJson
sample read = record {
  Value = Json;
  from_str = read;
  to_string = λ v. "{}";
  get = json_get;
  as_str = json_as_str;
  as_bool = json_as_bool;
  as_u64 = json_as_u64;
  as_i64 = json_as_i64;
  as_f64 = json_as_f64;
  as_array = json_as_array;
  is_object = json_is_object;
  object = λ es. obj (to_fields es);
  array = λ vs. arr (to_items vs);
  string = str;
  bool = bool;
  u64 = u64;
  i64 = i64;
  f64 = f64;
  f32 = f32;
  set = json_set;
}

from_fields-to_fields : (es : List (String × Json)) → from_fields (to_fields es) ≡ es
from_fields-to_fields [] = refl
from_fields-to_fields ((k, v) ∷ es) = ap (◌∷◌ (k, v)) (from_fields-to_fields es)

from_items-to_items : (vs : List Json) → from_items (to_items vs) ≡ vs
from_items-to_items [] = refl
from_items-to_items (v ∷ vs) = ap (◌∷◌ v) (from_items-to_items vs)

last_entry-append_field :
    (fs : Fields) (k i : String) (w : Json)
    → last_entry i (from_fields (append_field fs k w))
      ≡ (if str_eq k i then some w else last_entry i (from_fields fs))
last_entry-append_field end k i w = refl
last_entry-append_field (field j v fs) k i w = ground (arith, last_entry-append_field fs k i w)

json_get-set :
    (v w : Json) (k i : String)
    → json_is_object v ≡ true
    → json_get (json_set v k w) i ≡ (if str_eq k i then some w else json_get v i)
json_get-set (obj fs) w k i h = last_entry-append_field fs k i w
json_get-set _ w k i h = cc

pub sample-IsLawful : (read : String → Option Json) → IsLawful (sample read)
sample-IsLawful read = record {
  get-object = λ es k. ap (last_entry k) (from_fields-to_fields es);
  get-set = json_get-set;
  as_str-string = λ s. refl;
  as_array-array = λ vs. ap some (from_items-to_items vs);
  as_u64-u64 = λ n h. refl;
  as_u64-i64 = λ n h. refl;
  as_i64-i64 = λ z h. refl;
  as_bool-bool = λ b. refl;
  as_f64-f64 = λ x h. refl;
}
