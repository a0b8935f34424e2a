-- ===== src/Json.antt =====
-- JSON values, which src/cast_channel.rs and src/mirroring.rs build and read with serde_json: an
-- interface, since that is code outside the repository.
use chromecast_sink.Base.{ℕ, Bool, Option, none, some, List}

pub record Json : Type 1 where
  pub Value : Type 0
  -- `serde_json::from_str`, `Value::to_string`
  pub from_str : List ℕ → Option Value
  pub to_string : Value → List ℕ
  -- `Value::get`, `Value::pointer` and the casts
  pub get : Value → List ℕ → Option Value
  pub pointer : Value → List ℕ → Option Value
  pub as_str : Value → Option (List ℕ)
  pub as_u64 : Value → Option ℕ
  pub as_array : Value → Option (List Value)
  -- What `json!` builds.
  pub string : List ℕ → Value
  pub number : ℕ → Value
  pub boolean : Bool → Value
  pub array : List Value → Value
  pub object : List (List ℕ × Value) → Value

-- `v.get(key).and_then(|x| x.as_str())` and `as_u64`
abbrev pub get_str : (json : Json) → json.Value → List ℕ → Option (List ℕ)
get_str json v key = elim (json.get v key) [ none ↦ none | some x ↦ json.as_str x ]

abbrev pub get_u64 : (json : Json) → json.Value → List ℕ → Option ℕ
get_u64 json v key = elim (json.get v key) [ none ↦ none | some x ↦ json.as_u64 x ]
