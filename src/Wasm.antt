-- ===== src/Wasm.antt =====
-- flowwasm/src/lib.rs: the sessions over a SQLite that the JavaScript host owns, and the store that is
-- handed to it. The host's two functions and serde_json are parameters.

pub mod Values
pub mod Rows
pub mod Agrees
pub mod Errors
use flowcontrol.Common.{
  ℕ, ℤ, pos, Bool, true, false, String, Option, none, some, List, [], ◌∷◌, ◌⊎◌, inl, inr, map,
  concat, if◌then◌else◌,
}
use flowcontrol.Error
use flowcontrol.Error.{DomainError, DResult, ok, err, from_db_message, internal_error}
use flowcontrol.Json
use flowcontrol.Json.{
  Json, Items, Fields, nil, cons, end, field, array, object, get, opt_as_str, opt_as_u64,
  opt_as_i64, as_i64,
}
use flowcontrol.Sql.{Value, null, int, real, text, blob, Row}
use flowcontrol.Sql.Driver.{Exec, Driver, outcome}

-- The functions that the host puts up, over its state.
pub record JsHost (H : Type 0) : Type 0 where
  pub host_exec : String → String → H → String × H
  pub host_query : String → String → H → String × H

-- What the bridge calls of serde_json. A text that is no JSON is refused with a message.
pub record Serde : Type 0 where
  pub to_string : Json → String
  pub from_str : String → String ⊎ Json
  pub is_finite : ℕ → Bool
  pub as_f64 : ℤ → ℕ

abbrev pub items_of {ℓ} : {A : Type ℓ} → (A → Json) → List A → Items
items_of f [] = nil
items_of f (a ∷ rest) = cons (f a) (items_of f rest)

-- `Value::as_array`.
abbrev pub as_array : Option Json → Option Items
as_array (some (array items)) = some items
as_array v = none

abbrev pub value_or {ℓ} : {A : Type ℓ} → Option A → A → A
value_or none d = d
value_or (some a) d = a

abbrev pub collect_row {ℓ} : {A : Type ℓ} → DResult A → DResult (List A) → DResult (List A)
collect_row (err e) rest = err e
collect_row (ok a) (err e) = err e
collect_row (ok a) (ok rest) = ok (a ∷ rest)

module _ (serde : Serde) where
  unfoldable pub value_to_json : Value → Json
  value_to_json null = Json.null
  value_to_json (int n) = Json.number n
  value_to_json (real f) = if serde.is_finite f then Json.real f else Json.null
  value_to_json (text s) = Json.string s
  value_to_json (blob b) = array (items_of (λ n. Json.number (pos n)) b)

  unfoldable pub params_to_json : List Value → String
  unfolding value_to_json
  params_to_json ps = serde.to_string (array (items_of value_to_json ps))

  -- A number that is no i64 is read as a real.
  abbrev pub read_number : ℤ → Option ℤ → Value
  read_number n none = real (serde.as_f64 n)
  read_number n (some i) = int i

  unfoldable pub json_to_value : Json → Value
  json_to_value Json.null = null
  json_to_value (Json.bool b) = int (if b then pos 1 else pos 0)
  json_to_value (Json.number n) = read_number n (as_i64 (Json.number n))
  json_to_value (Json.real f) = real f
  json_to_value (Json.string s) = text s
  json_to_value (array items) = null
  json_to_value (object fs) = null

  unfoldable pub cells_of : Fields → List (String × Value)
  unfolding json_to_value
  cells_of end = []
  cells_of (field k v fs) = (k, json_to_value v) ∷ cells_of fs

  unfoldable pub json_row_to_row : Json → DResult Row
  unfolding cells_of
  json_row_to_row (object fs) = ok (record { cells = cells_of fs })
  json_row_to_row v = err (internal_error "host row is not an object")

  -- `rows.iter().map(json_row_to_row).collect()`
  unfoldable pub rows_of : Items → DResult (List Row)
  unfolding json_row_to_row
  rows_of nil = ok []
  rows_of (cons v rest) = collect_row (json_row_to_row v) (rows_of rest)

  -- An answer of the host: its JSON, or the error that it reports or that its text is.
  unfoldable pub parse_envelope : String → String → DResult Json
  parse_envelope out who = elim (serde.from_str out) [
    | inl e ↦ err (internal_error (concat (who ∷ " bad json: " ∷ e ∷ [])))
    | inr v ↦ elim (opt_as_str (get v "error")) [
      | some msg ↦ err (from_db_message msg)
      | none ↦ ok v
    ]
  ]

  abbrev pub exec_of : DResult Json → DResult Exec
  exec_of (err e) = err e
  exec_of (ok v) = ok (record {
    changes = value_or (opt_as_u64 (get v "changes")) 0;
    last_insert_rowid = value_or (opt_as_i64 (get v "lastInsertRowid")) (pos 0);
  })

  abbrev pub rows_in : Option Items → DResult (List Row)
  rows_in none = err (internal_error "host_query: missing rows")
  rows_in (some items) = rows_of items

  abbrev pub query_of : DResult Json → DResult (List Row)
  query_of (err e) = err e
  query_of (ok v) = rows_in (as_array (get v "rows"))

  -- `impl Session for HostSession`.
  unfoldable pub host_session : {H : Type 0} → JsHost H → Driver H
  unfolding params_to_json parse_envelope rows_of
  host_session host = record {
    execute = λ sql ps h.
        let (out, h') = host.host_exec sql (params_to_json ps) h in
        outcome (exec_of (parse_envelope out "host_exec")) h';
    query = λ sql ps h.
        let (out, h') = host.host_query sql (params_to_json ps) h in
        outcome (query_of (parse_envelope out "host_query")) h';
  }
