-- ===== src/Wasm/Agrees.antt =====
-- flowwasm/src/lib.rs against flowcore/src/sql.rs: a session over the host's functions and one over
-- rusqlite. The answer of the host, as the comment on its functions gives it, is a hypothesis.
use flowcontrol.Common.{
  [], ◌∷◌, ◌≡◌, refl, sym, ap, subst, ◌∙◌, ℕ, ℤ, pos, String, Option, none, some, List, ◌⊎◌, inl,
  inr, ◌∷◌,
}
use flowcontrol.Error.{ok, err, from_db_message}
use flowcontrol.Json.{nil, cons, Json, Items, array, get, as_i64, as_u64}
use flowcontrol.Sql.{Value, Row, Outcome, done, fail, real, blob, null, int, text}
use flowcontrol.Sql.Driver.{
  Exec, Rusqlite, execute_on, query_on, rusqlite_session, of_rusqlite, outcome,
}
use flowcontrol.Wasm.{
  Serde, JsHost, host_session, params_to_json, parse_envelope, exec_of, query_of, value_or,
  items_of, value_to_json,
}
use flowcontrol.Wasm.Rows.{IsShown, AreShown, AreAlike, rows-alike}

-- `{"error": message}` or `{"rows": [ {col: val}, … ]}`
abbrev pub IsAnswer : String ⊎ List Row → Json → Type 0
IsAnswer (inl msg) v = get v "error" ≡ some (Json.string msg)
IsAnswer (inr rows) v =
    (get v "error" ≡ none)
    × (items : Items) × (get v "rows" ≡ some (array items))
    × AreShown rows items

-- `{"error": message}` or `{"changes": N, "lastInsertRowid": M}`
abbrev pub IsExecAnswer : String ⊎ Exec → Json → Type 0
IsExecAnswer (inl msg) v = get v "error" ≡ some (Json.string msg)
IsExecAnswer (inr e) v =
    (get v "error" ≡ none)
    × (get v "changes" ≡ some (Json.number (pos e.changes)))
    × (as_u64 (Json.number (pos e.changes)) ≡ some e.changes)
    × (get v "lastInsertRowid" ≡ some (Json.number e.last_insert_rowid))
    × (as_i64 (Json.number e.last_insert_rowid) ≡ some e.last_insert_rowid)

abbrev pub EndAlike : {C : Type 0} → Outcome C (List Row) → Outcome C (List Row) → Type 0
EndAlike (done rs c) (done qs c') = AreAlike rs qs × (c ≡ c')
EndAlike (fail e c) (fail e' c') = (e ≡ e') × (c ≡ c')
EndAlike o o' = ⊥

module _ (serde : Serde) where
  envelope :
      (out who : String) (v : Json)
      → serde.from_str out ≡ inr v
      → get v "error" ≡ none
      → parse_envelope serde out who ≡ ok v
  unfolding parse_envelope
  envelope out who v h e = rw (h, e, parse_envelope) refl

  envelope_error :
      (out who : String) (v : Json) (msg : String)
      → serde.from_str out ≡ inr v
      → get v "error" ≡ some (Json.string msg)
      → parse_envelope serde out who ≡ err (from_db_message msg)
  unfolding parse_envelope
  envelope_error out who v msg h e = rw (h, e, parse_envelope) refl

  query_ends :
      {C : Type 0} (r : String ⊎ List Row) (c : C) (out : String) (v : Json)
      → serde.from_str out ≡ inr v
      → IsAnswer r v
      → EndAlike
          (outcome (query_of serde (parse_envelope serde out "host_query")) c)
          (outcome (of_rusqlite r) c)
  query_ends (inl msg) c out v h a = rw (envelope_error out "host_query" v msg h a) (refl, refl)
  query_ends (inr rows) c out v h (none_wrong, items, named, shown) =
      let (qs, e, alike) = rows-alike serde rows items shown in
      rw (envelope out "host_query" v h none_wrong, named, e) (alike, refl)

  execute_ends :
      {C : Type 0} (r : String ⊎ Exec) (c : C) (out : String) (v : Json)
      → serde.from_str out ≡ inr v
      → IsExecAnswer r v
      → outcome (exec_of serde (parse_envelope serde out "host_exec")) c ≡ outcome (of_rusqlite r) c
  execute_ends (inl msg) c out v h a = rw (envelope_error out "host_exec" v msg h a) refl
  execute_ends (inr e) c out v h (none_wrong, changes, counted, rowid, read) =
      rw (envelope out "host_exec" v h none_wrong, changes, rowid)
        (ap (λ p. done p c) (both counted read))
    where
      both :
          {a : Option ℕ} {b : Option ℤ}
          → a ≡ some e.changes
          → b ≡ some e.last_insert_rowid
          → record { changes = value_or a 0; last_insert_rowid = value_or b (pos 0) } ≡ e
      both p q = rw (p, q) refl

-- If the host's SQLite does what rusqlite's does, and the text that the host answers a query with is the
-- JSON of the rows or of the error, then a query over the host ends as one over rusqlite does: with the
-- same error, or with as many rows that give the same for every column's name, in the same state.
pub query-Agrees :
    {C : Type 0} (serde : Serde) (lib : Rusqlite C) (host : JsHost C) (sql : String)
    (ps : List Value) (c : C) (out : String) (v : Json)
    → host.host_query sql (params_to_json serde ps) c ≡ (out, (query_on lib sql ps c).1)
    → serde.from_str out ≡ inr v
    → IsAnswer (query_on lib sql ps c).0 v
    → EndAlike ((host_session serde host).query sql ps c) ((rusqlite_session lib).query sql ps c)
unfolding host_session rusqlite_session
query-Agrees serde lib host sql ps c out v sent parsed a =
    subst
      (λ p.
        EndAlike (outcome (query_of serde (parse_envelope serde p.0 "host_query")) p.1)
          ((rusqlite_session lib).query sql ps c))
      (sym sent)
      (query_ends serde (query_on lib sql ps c).0 (query_on lib sql ps c).1 out v parsed a)

-- The parameters that the store sends: NULL, integers of 64 bits and texts.
abbrev pub IsPlain : Value → Type 0
IsPlain null = Unit
IsPlain (int n) = as_i64 (Json.number n) ≡ some n
IsPlain (text s) = Unit
IsPlain v = ⊥

abbrev pub ArePlain : List Value → Type 0
ArePlain [] = Unit
ArePlain (v ∷ vs) = IsPlain v × ArePlain vs

-- The items of a JSON array that are the parameters, one by one.
abbrev pub AreSent : List Value → Items → Type 0
AreSent [] nil = Unit
AreSent (v ∷ vs) (cons j js) = IsShown v j × AreSent vs js
AreSent vs js = ⊥

plain-IsShown : (serde : Serde) (v : Value) → IsPlain v → IsShown v (value_to_json serde v)
unfolding value_to_json
plain-IsShown serde null h = refl
plain-IsShown serde (int n) h = (refl, h)
plain-IsShown serde (text s) h = refl
plain-IsShown serde (real f) h = absurd h
plain-IsShown serde (blob b) h = absurd h

plain-AreSent :
    (serde : Serde) (ps : List Value) → ArePlain ps → AreSent ps (items_of (value_to_json serde) ps)
plain-AreSent serde [] h = tt
plain-AreSent serde (v ∷ vs) (h, hs) = (plain-IsShown serde v h, plain-AreSent serde vs hs)

-- Suppose that serde_json reads back the text that it writes for the array of the parameters; that the
-- host, given a text that is an array of the parameters in their order, runs the statement with them on
-- its SQLite as rusqlite does on its own; and that it answers with the JSON of the counts or of the
-- error. Then a statement with plain parameters ends over the host as over rusqlite: with the same
-- counts or the same error, in the same state.
pub execute-Agrees :
    {C : Type 0} (serde : Serde) (lib : Rusqlite C) (host : JsHost C) (sql : String)
    (ps : List Value) (c : C) (out : String) (v : Json)
    → ArePlain ps
    → ((items : Items)
        → AreSent ps items
        → serde.from_str (serde.to_string (array items)) ≡ inr (array items))
    → ((sent : String) (items : Items)
        → serde.from_str sent ≡ inr (array items)
        → AreSent ps items
        → host.host_exec sql sent c ≡ (out, (execute_on lib sql ps c).1))
    → serde.from_str out ≡ inr v
    → IsExecAnswer (execute_on lib sql ps c).0 v
    → (host_session serde host).execute sql ps c ≡ (rusqlite_session lib).execute sql ps c
unfolding host_session rusqlite_session params_to_json
execute-Agrees serde lib host sql ps c out v plain read_back runs parsed a =
    let items = items_of (value_to_json serde) ps in
    let sent = plain-AreSent serde ps plain in
    ap (λ (p : String × _). outcome (exec_of serde (parse_envelope serde p.0 "host_exec")) p.1)
      (runs (serde.to_string (array items)) items (read_back items sent) sent)
    ∙ execute_ends serde (execute_on lib sql ps c).0 (execute_on lib sql ps c).1 out v parsed a
