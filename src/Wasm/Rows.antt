-- ===== src/Wasm/Rows.antt =====
-- flowwasm/src/lib.rs: the rows of an answer of the host.
use flowcontrol.Common.{
  ◌≡◌, refl, sym, ap, subst, ◌∙◌, true, false, String, Option, none, some, List, [], ◌∷◌, inl, inr,
  find, ◌==◌, Bool-cases, Option-cases,
}
use flowcontrol.Error.{ok}
use flowcontrol.Json.{Json, Items, Fields, nil, cons, end, field, object, lookup_field, as_i64}
use flowcontrol.Sql.{Value, null, int, real, text, blob, Row, cell}
use flowcontrol.Wasm.{Serde, json_to_value, cells_of, json_row_to_row, rows_of}
use flowcontrol.Wasm.Values.{number-int}

-- The JSON that a cell is sent as. Reals and blobs are in no column.
abbrev pub IsShown : Value → Json → Type 0
IsShown null j = j ≡ Json.null
IsShown (int n) j = (j ≡ Json.number n) × (as_i64 (Json.number n) ≡ some n)
IsShown (text s) j = j ≡ Json.string s
IsShown v j = ⊥

abbrev pub IsShownCell : Option (String × Value) → Option Json → Type 0
IsShownCell none none = Unit
IsShownCell (some c) (some j) = IsShown c.1 j
IsShownCell c j = ⊥

-- A row: an object that has under each column's name what the row has, in any order.
pub record IsShownRow (r : Row) (j : Json) : Type 0 where
  pub fields : Fields
  pub is_object : j ≡ object fields
  pub shown :
      (col : String) → IsShownCell (find (λ c. c.0 == col) r.cells) (lookup_field col fields)

abbrev pub AreShown : List Row → Items → Type 0
AreShown [] nil = Unit
AreShown (r ∷ rs) (cons j js) = IsShownRow r j × AreShown rs js
AreShown rs js = ⊥

-- The rows are read alike by the names of their columns.
abbrev pub AreAlike : List Row → List Row → Type 0
AreAlike [] [] = Unit
AreAlike (r ∷ rs) (q ∷ qs) = ((col : String) → cell r col ≡ cell q col) × AreAlike rs qs
AreAlike rs qs = ⊥

module _ (serde : Serde) where
  value_of_shown : (v : Value) (j : Json) → IsShown v j → json_to_value serde j ≡ v
  unfolding json_to_value
  value_of_shown null j h = ap (json_to_value serde) h
  value_of_shown (int n) j h = ap (json_to_value serde) h.0 ∙ number-int serde n h.1
  value_of_shown (text s) j h = ap (json_to_value serde) h
  value_of_shown (real f) j h = absurd h
  value_of_shown (blob b) j h = absurd h

  abbrev host_row : Fields → Row
  host_row fs = record { cells = cells_of serde fs }

  abbrev host_cell : Fields → String → Option (String × Value)
  host_cell fs col = find (λ c. c.0 == col) (cells_of serde fs)

  -- A field that is looked up is the cell that is found.
  cell_absent : (fs : Fields) (col : String) → lookup_field col fs ≡ none → host_cell fs col ≡ none
  unfolding cells_of
  cell_absent end col h = refl
  cell_absent (field k v fs) col h = elim (Bool-cases (k == col)) [
    | inl q ↦ absurd (cc (passed q, h))
    | inr q ↦ rw q (cell_absent fs col (sym (skipped q) ∙ h))
  ]
    where
      passed : (k == col) ≡ true → lookup_field col (field k v fs) ≡ some v
      passed q = rw q refl

      skipped : (k == col) ≡ false → lookup_field col (field k v fs) ≡ lookup_field col fs
      skipped q = rw q refl

  cell_present :
      (fs : Fields) (col : String) (j : Json)
      → lookup_field col fs ≡ some j
      → (k : String) × (host_cell fs col ≡ some (k, json_to_value serde j))
  unfolding cells_of
  cell_present end col j h = absurd cc
  cell_present (field k v fs) col j h = elim (Bool-cases (k == col)) [
    | inl q ↦ (k, rw q (ap (λ x. some (k, json_to_value serde x)) (same (sym (passed q) ∙ h))))
    | inr q ↦ let (m, e) = cell_present fs col j (sym (skipped q) ∙ h) in (m, rw q e)
  ]
    where
      passed : (k == col) ≡ true → lookup_field col (field k v fs) ≡ some v
      passed q = rw q refl

      skipped : (k == col) ≡ false → lookup_field col (field k v fs) ≡ lookup_field col fs
      skipped q = rw q refl

      same : {a b : Json} → some a ≡ some b → a ≡ b
      same e = cc

  row-alike :
      (r : Row) (fs : Fields) (col : String)
      → IsShownCell (find (λ c. c.0 == col) r.cells) (lookup_field col fs)
      → cell (host_row fs) col ≡ cell r col
  unfolding cell
  row-alike r fs col h = elim (Option-cases (lookup_field col fs)) [
    | inl e ↦ elim (Option-cases (find (λ c. c.0 == col) r.cells)) [
      | inl f ↦ rw (cell_absent fs col e, f, cell) refl
      | inr (c, f) ↦ absurd (subst (λ x. IsShownCell x none) f (subst (IsShownCell _) e h))
    ]
    | inr (j, e) ↦ elim (Option-cases (find (λ c. c.0 == col) r.cells)) [
      | inl f ↦ absurd (subst (λ x. IsShownCell x (some j)) f (subst (IsShownCell _) e h))
      | inr (c, f) ↦
          let (k, g) = cell_present fs col j e in
          let shown = subst (λ x. IsShownCell x (some j)) f (subst (IsShownCell _) e h) in
          rw (g, f, cell) (ap ok (value_of_shown c.1 j shown))
    ]
  ]

  pub rows-alike :
      (rs : List Row) (js : Items)
      → AreShown rs js
      → (qs : List Row) × (rows_of serde js ≡ ok qs) × AreAlike qs rs
  unfolding rows_of json_row_to_row
  rows-alike [] nil h = ([], refl, tt)
  rows-alike (r ∷ rs) (cons j js) (s, h) =
      let (qs, e, alike) = rows-alike rs js h in
      (
        host_row s.fields ∷ qs,
        rw (s.is_object, e) refl,
        (λ col. row-alike r s.fields col (s.shown col), alike),
      )
  rows-alike [] (cons j js) h = absurd h
  rows-alike (r ∷ rs) nil h = absurd h
