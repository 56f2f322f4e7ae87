-- ===== src/Wasm/Values.antt =====
-- flowwasm/src/lib.rs: values on their way to the host and back.
use flowcontrol.Common.{◌≡◌, refl, ap, ℤ, true, some}
use flowcontrol.Json.{Json, as_i64}
use flowcontrol.Sql.{Value, null, int, real, text, blob}
use flowcontrol.Wasm.{Serde, value_to_json, json_to_value, read_number}

-- The values that the bridge carries: an integer of 64 bits, a real that is finite, a text, and NULL.
-- No column of the schema and no parameter of the store holds a blob.
abbrev pub Carried : Serde → Value → Type 0
Carried serde null = Unit
Carried serde (int n) = as_i64 (Json.number n) ≡ some n
Carried serde (real f) = serde.is_finite f ≡ true
Carried serde (text s) = Unit
Carried serde (blob b) = ⊥

pub number-int :
    (serde : Serde) (n : ℤ)
    → as_i64 (Json.number n) ≡ some n
    → json_to_value serde (Json.number n) ≡ int n
unfolding json_to_value
number-int serde n h = ap (read_number serde n) h

-- A NULL, a 64-bit integer, a finite real and a text come back from JSON as they went into it.
pub json_to_value-value_to_json :
    (serde : Serde) (v : Value) → Carried serde v → json_to_value serde (value_to_json serde v) ≡ v
unfolding json_to_value value_to_json
json_to_value-value_to_json serde null h = refl
json_to_value-value_to_json serde (int n) h = number-int serde n h
json_to_value-value_to_json serde (real f) h = rw h refl
json_to_value-value_to_json serde (text s) h = refl
json_to_value-value_to_json serde (blob b) h = absurd h
