-- ===== src/Sql.antt =====
-- flowcore/src/sql.rs: the seam between the store and its driver. Values, rows with their typed
-- accessors, and the transaction around a block of statements. The debug print of a value, which
-- ends the accessors' messages, is left out.
pub mod Driver
use flowcontrol.Common.{
  ℕ, ℤ, pos, Bool, String, Option, none, some, List, [], ◌∷◌, ◌==◌, if◌then◌else◌, get_elem?, find,
  concat, wrap_i32,
}
use flowcontrol.Error.{DomainError, DResult, ok, err, internal_error}

-- Reals and blobs are in no column of the schema; they keep their place in the type.
pub data Value : Type 0 where
  null : Value
  int : ℤ → Value
  real : ℕ → Value
  text : String → Value
  blob : List ℕ → Value

-- `impl From<Option<&str>> for Value`.
unfoldable pub of_opt_str : Option String → Value
of_opt_str none = null
of_opt_str (some s) = text s

-- `impl From<bool> for Value`.
unfoldable pub of_bool : Bool → Value
of_bool b = int (if b then pos 1 else pos 0)

pub record Row : Type 0 where
  pub cells : List (String × Value)

unfoldable pub cell : Row → String → DResult Value
cell r col = elim (find (λ c. c.0 == col) r.cells) [
  | some c ↦ ok c.1
  | none ↦ err (internal_error (concat ("no such column: " ∷ col ∷ [])))
]

abbrev pub then_value {ℓ} : {A : Type ℓ} → DResult Value → (Value → DResult A) → DResult A
then_value (ok v) f = f v
then_value (err e) f = err e

abbrev pub expected : String → String → DomainError
expected col what = internal_error (concat (col ∷ ": expected " ∷ what ∷ []))

abbrev pub as_int : String → Value → DResult ℤ
as_int col (int i) = ok i
as_int col null = ok (pos 0)
as_int col v = err (expected col "int")

abbrev pub as_text : String → Value → DResult String
as_text col (text s) = ok s
as_text col v = err (expected col "text")

abbrev pub as_opt_text : String → Value → DResult (Option String)
as_opt_text col (text s) = ok (some s)
as_opt_text col null = ok none
as_opt_text col v = err (expected col "text/null")

unfoldable pub get_i64 : Row → String → DResult ℤ
unfolding cell
get_i64 r col = then_value (cell r col) (as_int col)

abbrev pub wrapped : DResult ℤ → DResult ℤ
wrapped (ok i) = ok (wrap_i32 i)
wrapped (err e) = err e

unfoldable pub get_i32 : Row → String → DResult ℤ
unfolding get_i64
get_i32 r col = wrapped (get_i64 r col)

unfoldable pub get_str : Row → String → DResult String
unfolding cell
get_str r col = then_value (cell r col) (as_text col)

unfoldable pub get_opt_str : Row → String → DResult (Option String)
unfolding cell
get_opt_str r col = then_value (cell r col) (as_opt_text col)

-- `col {i}` is written with the index's place only.
unfoldable pub cell_at : Row → ℕ → DResult Value
cell_at r i = elim (get_elem? r.cells i) [
  | some c ↦ ok c.1
  | none ↦ err (internal_error "no column at index")
]

unfoldable pub get_i64_at : Row → ℕ → DResult ℤ
unfolding cell_at
get_i64_at r i = then_value (cell_at r i) (as_int "col")

unfoldable pub get_str_at : Row → ℕ → DResult String
unfolding cell_at
get_str_at r i = then_value (cell_at r i) (as_text "col")

-- The end of a call on a session: a value or an error, and the session's state beside either.
pub data Outcome {ℓ} (S : Type 0) (A : Type ℓ) : Type ℓ where
  done : A → S → Outcome S A
  fail : DomainError → S → Outcome S A

-- A computation over one session, as the `?` operator chains them.
abbrev pub Run {ℓ} : Type 0 → Type ℓ → Type ℓ
Run S A = S → Outcome S A

module _ {ℓ κ} {S : Type 0} {A : Type ℓ} {B : Type κ} where
  abbrev pub continue : Outcome S A → (A → Run S B) → Outcome S B
  continue (done a s) f = f a s
  continue (fail e s) f = fail e s

  infixl 5 ◌>>=◌
  abbrev pub ◌>>=◌ : Run S A → (A → Run S B) → Run S B
  ◌>>=◌ m f s = continue (m s) f

  infixl 5 ◌>>◌
  abbrev pub ◌>>◌ : Run S A → Run S B → Run S B
  ◌>>◌ m n s = continue (m s) (λ _. n)

module _ {ℓ} {S : Type 0} {A : Type ℓ} where
  abbrev pub pure : A → Run S A
  pure a s = done a s

  abbrev pub raise : DomainError → Run S A
  raise e s = fail e s

  abbrev pub lift : DResult A → Run S A
  lift (ok a) s = done a s
  lift (err e) s = fail e s

  -- `query_one`: exactly one row.
  abbrev pub one_row : Option A → Run S A
  one_row (some r) = pure r
  one_row none = raise (internal_error "query returned no rows")

-- The statements BEGIN, COMMIT and ROLLBACK of a driver.
pub record Control (S : Type 0) : Type 0 where
  pub begin : Run S (Unit {0})
  pub commit : Run S (Unit {0})
  pub rollback : Run S (Unit {0})

module _ {ℓ} {S : Type 0} {A : Type ℓ} (control : Control S) where
  abbrev pub commit_with : A → Outcome S (Unit {0}) → Outcome S A
  commit_with a (done u s) = done a s
  commit_with a (fail e s) = fail e s

  -- The outcome of ROLLBACK itself is dropped.
  abbrev pub roll_back_with : DomainError → Outcome S (Unit {0}) → Outcome S A
  roll_back_with e (done u s) = fail e s
  roll_back_with e (fail other s) = fail e s

  abbrev pub close : Outcome S A → Outcome S A
  close (done a s) = commit_with a (control.commit s)
  close (fail e s) = roll_back_with e (control.rollback s)

  -- Run `f` inside a transaction: commit on a value, roll back on an error.
  unfoldable pub transaction : Run S A → Run S A
  transaction f = control.begin >>= λ _ s. close (f s)
