-- ===== src/Examples/Bridge.antt =====
-- A bridge to a host whose state is a count of statements. It answers each query with one row, whose
-- fields stand in the order of their names, as serde_json keeps them.
use flowcontrol.Common.{
  ap, refl, ◌≡◌, ◌==◌, if◌then◌else◌, ℕ, suc, pos, String, some, [], ◌∷◌, inl, inr, true, find,
  Bool-cases, eq_iff, sym,
}
use flowcontrol.Error
use flowcontrol.Error.{DomainError, failed_precondition, codes}
use flowcontrol.Json.{Json, Items, Fields, nil, cons, end, field, array, object, lookup_field}
use flowcontrol.Sql.{null, int, text, Row}
use flowcontrol.Sql.Driver
use flowcontrol.Sql.Driver.{
  Rusqlite, query_on, execute_on, rusqlite_session, cells_from, rows_from, value_of,
}
use flowcontrol.Wasm.{Serde, JsHost, host_session, params_to_json, value_to_json, json_to_value}
use flowcontrol.Wasm.Values.{json_to_value-value_to_json}
use flowcontrol.Wasm.Rows.{IsShownCell}
use flowcontrol.Wasm.Agrees.{AreSent, EndAlike, query-Agrees, execute-Agrees}
use flowcontrol.Wasm.Errors.{to_js, split_first, to_js-split_first}

abbrev sample_fields : Fields
sample_fields = field "seq" (Json.number (pos 7)) (field "title" Json.null end)

abbrev rows_json : Json
rows_json = object (field "rows" (array (cons (object sample_fields) nil)) end)

abbrev exec_json : Json
exec_json =
    object
      (field "changes" (Json.number (pos 1)) (field "lastInsertRowid" (Json.number (pos 7)) end))

abbrev sample_serde : Serde
sample_serde = record {
  to_string = λ v. "[]";
  from_str = λ s.
      if s == "rows" then inr rows_json else if s == "counts" then inr exec_json else inl "no JSON";
  is_finite = λ f. true;
  as_f64 = λ n. 0;
}

abbrev sample_lib : Rusqlite ℕ
sample_lib = record {
  as_bytes = codes;
  from_utf8_lossy = λ b. "";
  execute = λ sql ps c. (inr 1, suc c);
  last_insert_rowid = λ c. pos 7;
  column_names = λ sql c. inr ("title" ∷ "seq" ∷ []);
  query_map = λ sql ps c. (inr (inr (Driver.null ∷ Driver.integer (pos 7) ∷ []) ∷ []), c);
  invalid_index = λ i. "Invalid column index";
}

abbrev sample_js : JsHost ℕ
sample_js = record {
  host_exec = λ sql ps c. ("counts", suc c);
  host_query = λ sql ps c. ("rows", c);
}

abbrev sample_row : Row
sample_row = record { cells = ("title", null) ∷ ("seq", int (pos 7)) ∷ [] }

sample_shown :
    (col : String)
    → IsShownCell (find (λ c. c.0 == col) sample_row.cells) (lookup_field col sample_fields)
sample_shown col = elim (Bool-cases ("seq" == col)) [
  | inl q ↦ subst_col ((eq_iff "seq" col).0 q) (refl, refl)
  | inr q ↦ elim (Bool-cases ("title" == col)) [
    | inl r ↦ subst_col ((eq_iff "title" col).0 r) refl
    | inr r ↦ rw (q, r) tt
  ]
]
  where
    subst_col :
        {a : String}
        → a ≡ col
        → IsShownCell (find (λ c. c.0 == a) sample_row.cells) (lookup_field a sample_fields)
        → IsShownCell (find (λ c. c.0 == col) sample_row.cells) (lookup_field col sample_fields)
    subst_col e h = rw (sym e) h

query-Agrees_example :
    EndAlike
      ((host_session sample_serde sample_js).query "SELECT title, seq FROM t" [] 3)
      ((rusqlite_session sample_lib).query "SELECT title, seq FROM t" [] 3)
unfolding query_on rows_from cells_from value_of params_to_json
query-Agrees_example =
    query-Agrees sample_serde sample_lib sample_js "SELECT title, seq FROM t" [] 3 "rows" rows_json
      refl refl
      (
        refl,
        cons (object sample_fields) nil,
        refl,
        (record { fields = sample_fields; is_object = refl; shown = sample_shown }, tt),
      )

-- A serde_json that knows the text of one array of parameters, and a host that deletes by it.
abbrev param_json : Json
param_json = array (cons (Json.string "t1") nil)

abbrev param_serde : Serde
param_serde = record {
  to_string = λ v. "[\"t1\"]";
  from_str = λ s.
      if s == "[\"t1\"]"
      then inr param_json
      else if s == "counts"
      then inr exec_json
      else inl "no JSON";
  is_finite = λ f. true;
  as_f64 = λ n. 0;
}

only_param : (items : Items) → AreSent (text "t1" ∷ []) items → items ≡ cons (Json.string "t1") nil
only_param nil h = absurd h
only_param (cons j nil) h = ap (λ x. cons x nil) h.0
only_param (cons j (cons k ks)) h = absurd h.1

execute-Agrees_example :
    (host_session param_serde sample_js).execute "DELETE FROM t WHERE id = ?1" (text "t1" ∷ []) 3
    ≡ (rusqlite_session sample_lib).execute "DELETE FROM t WHERE id = ?1" (text "t1" ∷ []) 3
unfolding execute_on
execute-Agrees_example =
    execute-Agrees param_serde sample_lib sample_js "DELETE FROM t WHERE id = ?1" (text "t1" ∷ []) 3
      "counts" exec_json (tt, tt) (λ items h. ap (λ l. inr (array l)) (sym (only_param items h)))
      (λ sent items e h. refl) refl (refl, refl, refl, refl, refl)

json_to_value-value_to_json_example :
    json_to_value sample_serde (value_to_json sample_serde (text "t1")) ≡ text "t1"
json_to_value-value_to_json_example = json_to_value-value_to_json sample_serde (text "t1") tt

abbrev sample_error : DomainError
sample_error = record { code = failed_precondition; message = "cannot undo: no event" }

to_js-split_first_example :
    split_first (codes (to_js sample_error))
    ≡ some (codes (Error.as_str failed_precondition), codes "cannot undo: no event")
to_js-split_first_example = to_js-split_first sample_error
