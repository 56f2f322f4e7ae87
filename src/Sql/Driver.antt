-- ===== src/Sql/Driver.antt =====
-- flowcore/src/sql.rs: the sessions of a driver, and the native one over rusqlite. The library, with its
-- connection, is a parameter; an error of it stands for its text.
use flowcontrol.Common.{ℕ, suc, ℤ, String, Option, none, some, List, [], ◌∷◌, ◌⊎◌, inl, inr, map}
use flowcontrol.Error.{DResult, ok, err, from_db_message}
use flowcontrol.Sql
use flowcontrol.Sql.{Value, Row, Outcome, done, fail, Run, ◌>>=◌, ◌>>◌, pure, one_row, Control}

-- The result of a statement that gives no rows.
pub record Exec : Type 0 where
  pub changes : ℕ
  pub last_insert_rowid : ℤ

-- `trait Session`, over the state that a session holds.
pub record Driver (S : Type 0) : Type 0 where
  pub execute : String → List Value → Run S Exec
  pub query : String → List Value → Run S (List Row)

abbrev pub first_of {ℓ} : {A : Type ℓ} → List A → Option A
first_of [] = none
first_of (a ∷ rest) = some a

module _ {S : Type 0} (driver : Driver S) where
  unfoldable pub query_opt : String → List Value → Run S (Option Row)
  query_opt sql ps = driver.query sql ps >>= λ rows. pure (first_of rows)

  unfoldable pub query_one : String → List Value → Run S Row
  unfolding query_opt
  query_one sql ps = query_opt sql ps >>= one_row

  -- The statements that `transaction` sends.
  unfoldable pub control_of : Control S
  control_of = record {
    begin = driver.execute "BEGIN" [] >> pure tt;
    commit = driver.execute "COMMIT" [] >> pure tt;
    rollback = driver.execute "ROLLBACK" [] >> pure tt;
  }

-- A cell as rusqlite hands it over, a text being its bytes.
pub data ValueRef : Type 0 where
  null : ValueRef
  integer : ℤ → ValueRef
  real : ℕ → ValueRef
  text : List ℕ → ValueRef
  blob : List ℕ → ValueRef

-- What the driver calls of rusqlite, on a connection, and of the texts of Rust.
pub record Rusqlite (C : Type 0) : Type 0 where
  pub as_bytes : String → List ℕ
  pub from_utf8_lossy : List ℕ → String
  pub execute : String → List ValueRef → C → (String ⊎ ℕ) × C
  pub last_insert_rowid : C → ℤ
  pub column_names : String → C → String ⊎ List String
  pub query_map : String → List ValueRef → C → (String ⊎ List (String ⊎ List ValueRef)) × C
  pub invalid_index : ℕ → String

-- `From<rusqlite::Error>`.
abbrev pub of_rusqlite {ℓ} : {A : Type ℓ} → String ⊎ A → DResult A
of_rusqlite (inl e) = err (from_db_message e)
of_rusqlite (inr a) = ok a

abbrev pub outcome {ℓ} : {S : Type 0} {A : Type ℓ} → DResult A → S → Outcome S A
outcome (ok a) s = done a s
outcome (err e) s = fail e s

module _ {C : Type 0} (lib : Rusqlite C) where
  unfoldable pub to_sql : Value → ValueRef
  to_sql Sql.null = null
  to_sql (Sql.int i) = integer i
  to_sql (Sql.real f) = real f
  to_sql (Sql.text s) = text (lib.as_bytes s)
  to_sql (Sql.blob b) = blob b

  unfoldable pub value_of : ValueRef → Value
  value_of null = Sql.null
  value_of (integer i) = Sql.int i
  value_of (real f) = Sql.real f
  value_of (text t) = Sql.text (lib.from_utf8_lossy t)
  value_of (blob b) = Sql.blob b

  abbrev pub prepend {ℓ} : {A : Type ℓ} → String ⊎ A → String ⊎ List A → String ⊎ List A
  prepend (inl e) rest = inl e
  prepend (inr a) (inl e) = inl e
  prepend (inr a) (inr rest) = inr (a ∷ rest)

  -- The cells of a row, by the column names; `get_ref` fails past the last one.
  unfoldable pub cells_from : ℕ → List String → List ValueRef → String ⊎ List (String × Value)
  unfolding value_of
  cells_from i [] cs = inr []
  cells_from i (n ∷ ns) [] = inl (lib.invalid_index i)
  cells_from i (n ∷ ns) (c ∷ cs) = prepend (inr (n, value_of c)) (cells_from (suc i) ns cs)

  abbrev pub row_from : List String → String ⊎ List ValueRef → String ⊎ Row
  row_from names (inl e) = inl e
  row_from names (inr cs) = as_row (cells_from 0 names cs)
    where
      as_row : String ⊎ List (String × Value) → String ⊎ Row
      as_row (inl e) = inl e
      as_row (inr cells) = inr (record { cells = cells })

  -- `rows.collect()`: the first error ends it.
  unfoldable pub rows_from : List String → List (String ⊎ List ValueRef) → String ⊎ List Row
  unfolding cells_from
  rows_from names [] = inr []
  rows_from names (r ∷ rs) = prepend (row_from names r) (rows_from names rs)

  -- What a statement gives before its error is classified.
  unfoldable pub execute_on : String → List Value → C → (String ⊎ Exec) × C
  unfolding to_sql
  execute_on sql ps c = counted (lib.execute sql (map to_sql ps) c)
    where
      counted : (String ⊎ ℕ) × C → (String ⊎ Exec) × C
      counted (inl e, c') = (inl e, c')
      counted (inr n, c') =
          (inr (record { changes = n; last_insert_rowid = lib.last_insert_rowid c' }), c')

  unfoldable pub query_on : String → List Value → C → (String ⊎ List Row) × C
  unfolding to_sql rows_from
  query_on sql ps c = prepared (lib.column_names sql c)
    where
      collected :
          List String → (String ⊎ List (String ⊎ List ValueRef)) × C → (String ⊎ List Row) × C
      collected names (inl e, c') = (inl e, c')
      collected names (inr rs, c') = (rows_from names rs, c')

      prepared : String ⊎ List String → (String ⊎ List Row) × C
      prepared (inl e) = (inl e, c)
      prepared (inr names) = collected names (lib.query_map sql (map to_sql ps) c)

  -- `impl Session for RusqliteSession`.
  unfoldable pub rusqlite_session : Driver C
  unfolding execute_on query_on
  rusqlite_session = record {
    execute = λ sql ps c. let (r, c') = execute_on sql ps c in outcome (of_rusqlite r) c';
    query = λ sql ps c. let (r, c') = query_on sql ps c in outcome (of_rusqlite r) c';
  }
