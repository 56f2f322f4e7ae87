-- ===== src/Json.antt =====
-- The JSON values of the payloads. `serde_json::Value` and its texts are not the repository's: the
-- type has serde_json's cases, a number being an integer or a real by its bits, and writing and reading a text are parameters (`Host`, in Schema).
use flowcontrol.Common.{
  ℕ, ◌^◌, ltb, ℤ, pos, negsuc, Bool, String, Option, none, some, ◌==◌, if◌then◌else◌,
}

mutual
  pub data Json : Type 0 where
    null : Json
    bool : Bool → Json
    number : ℤ → Json
    real : ℕ → Json
    string : String → Json
    array : Items → Json
    object : Fields → Json

  pub data Items : Type 0 where
    nil : Items
    cons : Json → Items → Items

  pub data Fields : Type 0 where
    end : Fields
    field : String → Json → Fields → Fields

abbrev pub lookup_field : String → Fields → Option Json
lookup_field k end = none
lookup_field k (field j v fs) = if j == k then some v else lookup_field k fs

-- `Value::get`.
abbrev pub get : Json → String → Option Json
get (object fs) k = lookup_field k fs
get v k = none

-- `Value::as_str`.
abbrev pub as_str : Json → Option String
as_str (string s) = some s
as_str v = none

-- `Value::as_i64`: none for a number past the i64, or for one that is no integer.
abbrev pub as_i64 : Json → Option ℤ
as_i64 (number (pos n)) = if ltb n (2 ^ 63) then some (pos n) else none
as_i64 (number (negsuc n)) = if ltb n (2 ^ 63) then some (negsuc n) else none
as_i64 v = none

-- `Value::as_u64`.
abbrev pub as_u64 : Json → Option ℕ
as_u64 (number (pos n)) = if ltb n (2 ^ 64) then some n else none
as_u64 v = none

abbrev pub opt_as_str : Option Json → Option String
opt_as_str none = none
opt_as_str (some v) = as_str v

abbrev pub opt_as_u64 : Option Json → Option ℕ
opt_as_u64 none = none
opt_as_u64 (some v) = as_u64 v

abbrev pub opt_as_i64 : Option Json → Option ℤ
opt_as_i64 none = none
opt_as_i64 (some v) = as_i64 v
