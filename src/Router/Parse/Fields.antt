-- ===== src/Router/Parse/Fields.antt =====
-- `value.get(key).and_then(Value::as_…)`, which the parsers are made of.
use oxicast.Common.{ℕ, String, Bool, Option, List, and_then}
use oxicast.Common.Int.{ℤ}
use oxicast.Types.{F64}
use oxicast.Serde.{SerdeJson}

module _ (j : SerdeJson) where
  open j use {Value, get, as_str, as_bool, as_u64, as_i64, as_f64, as_array}

  abbrev pub get_str : Value → String → Option String
  get_str v key = and_then (get v key) as_str

  abbrev pub get_bool : Value → String → Option Bool
  get_bool v key = and_then (get v key) as_bool

  abbrev pub get_u64 : Value → String → Option ℕ
  get_u64 v key = and_then (get v key) as_u64

  abbrev pub get_i64 : Value → String → Option ℤ
  get_i64 v key = and_then (get v key) as_i64

  abbrev pub get_f64 : Value → String → Option F64
  get_f64 v key = and_then (get v key) as_f64

  abbrev pub get_array : Value → String → Option (List Value)
  get_array v key = and_then (get v key) as_array
