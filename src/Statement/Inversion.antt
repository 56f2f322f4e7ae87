-- ===== src/Statement/Inversion.antt =====
-- What a statement of flowcore/src/store.rs that went through has done: nothing, or one change of one
-- table, whose guards had passed.
use flowcontrol.Common.{
  Option-cases, ◌≡◌, refl, ◌⊎◌, inl, inr, Bool, true, false, not, String, Option, none, some, [],
  ◌∷◌, ◌++◌, arith, is_some, if◌then◌else◌, Bool-cases,
}
use flowcontrol.Error.{DResult, ok, err}
use flowcontrol.Schema.{NodeRow, Db, Host, Constraint}
use flowcontrol.Schema.Checks.{
  node_at, parent_kind_insert, parent_kind_update, node_checks, node_reference, node_references,
}
use flowcontrol.Schema.Cascade.{subtree, remove_nodes}
use flowcontrol.Statement.Nodes.{
  delete_node_row, violated, insert_node_row, update_node_column, update_node_place, write_node,
  refused, guarded,
}

guarded-eq-ok :
    (o : Option String) (m : DResult Db) (d' : Db) → guarded o m ≡ ok d' → (o ≡ none) × (m ≡ ok d')
guarded-eq-ok none m d' h = (refl, h)
guarded-eq-ok (some s) m d' h = cc

refused-eq-ok :
    (ignore : Bool) (host : Host) (c : Constraint) (table : String) (d d' : Db)
    → refused ignore host c table d ≡ ok d'
    → d' ≡ d
refused-eq-ok true host c table d d' h = cc
refused-eq-ok false host c table d d' h = cc

is_some-eq-false {ℓ} : {A : Type ℓ} (o : Option A) → is_some o ≡ false → o ≡ none
is_some-eq-false none h = refl
is_some-eq-false (some a) h = cc

-- A row that was put in: all the guards of its INSERT had passed.
pub record Inserted (new : NodeRow) (d d' : Db) : Type 0 where
  pub result : d' ≡ record d { nodes = d.nodes ++ new ∷ [] }
  pub parent_kind : parent_kind_insert d new ≡ none
  pub checks : node_checks new ≡ true
  pub unique : node_at d.nodes new.id ≡ none
  pub references : node_references d new ≡ true

-- The tests of an INSERT in turn.
after_tests :
    (ignore : Bool) (host : Host) (c u r : Bool) (d x d' : Db)
    → (if not c
        then refused ignore host Constraint.check "nodes" d
        else if u
        then refused ignore host Constraint.primary_key "nodes" d
        else if not r
        then err (violated host Constraint.foreign_key "nodes")
        else ok x)
      ≡ ok d'
    → (d' ≡ d) ⊎ ((c ≡ true) × (u ≡ false) × (r ≡ true) × (d' ≡ x))
after_tests ignore host false u r d x d' h = inl (refused-eq-ok ignore host _ _ d d' h)
after_tests ignore host true true r d x d' h = inl (refused-eq-ok ignore host _ _ d d' h)
after_tests ignore host true false false d x d' h = cc
after_tests ignore host true false true d x d' h = inr (refl, refl, refl, cc)

pub insert_node_row-eq-ok :
    (ignore : Bool) (host : Host) (new : NodeRow) (d d' : Db)
    → insert_node_row ignore host new d ≡ ok d'
    → (d' ≡ d) ⊎ Inserted new d d'
unfolding insert_node_row
insert_node_row-eq-ok ignore host new d d' h =
    let (free, rest) = guarded-eq-ok _ _ d' h in
    elim (after_tests ignore host (node_checks new) (is_some (node_at d.nodes new.id))
      (node_references d new) d (record d { nodes = d.nodes ++ new ∷ [] }) d' rest) [
        | inl same ↦ inl same
        | inr (c, u, r, e) ↦ inr (record {
          result = e;
          parent_kind = free;
          checks = c;
          unique = is_some-eq-false (node_at d.nodes new.id) u;
          references = r;
        })
      ]

-- A row that was changed: it was there, and its CHECKs hold of what it became.
pub record Updated (host : Host) (id : String) (f : NodeRow → NodeRow) (d d' : Db) : Type 0 where
  pub old : NodeRow
  pub found : node_at d.nodes id ≡ some old
  pub checks : node_checks (f old) ≡ true
  pub result : d' ≡ write_node host id f d

column_after :
    (host : Host) (id : String) (f : NodeRow → NodeRow) (o : Option NodeRow) (d d' : Db)
    → node_at d.nodes id ≡ o
    → elim o [
      | none ↦ ok d
      | some n ↦
          if node_checks (f n)
          then ok (write_node host id f d)
          else err (violated host Constraint.check "nodes")
    ]
      ≡ ok d'
    → (d' ≡ d) ⊎ Updated host id f d d'
column_after host id f none d d' e h = inl cc
column_after host id f (some n) d d' e h = elim (Bool-cases (node_checks (f n))) [
  | inl c ↦ inr (record { old = n; found = e; checks = c; result = ground arith })
  | inr c ↦ absurd (ground arith)
]

pub update_node_column-eq-ok :
    (host : Host) (id : String) (f : NodeRow → NodeRow) (d d' : Db)
    → update_node_column host id f d ≡ ok d'
    → (d' ≡ d) ⊎ Updated host id f d d'
unfolding update_node_column
update_node_column-eq-ok host id f d d' h = column_after host id f (node_at d.nodes id) d d' refl h

-- A row that was moved, past the trigger too.
pub record Placed (host : Host) (id : String) (f : NodeRow → NodeRow) (d d' : Db) : Type 0 where
  pub updated : Updated host id f d d'
  pub parent_kind : parent_kind_update d (f updated.old) ≡ none
  pub reference : node_reference d (f updated.old).parent_id ≡ true

Placed-after :
    (host : Host) (id : String) (f : NodeRow → NodeRow) (o : Option NodeRow) (d d' : Db)
    → node_at d.nodes id ≡ o
    → elim o [
      | none ↦ ok d
      | some n ↦ guarded (parent_kind_update d (f n)) (
          if not (node_checks (f n))
          then err (violated host Constraint.check "nodes")
          else if not (node_reference d (f n).parent_id)
          then err (violated host Constraint.foreign_key "nodes")
          else ok (write_node host id f d))
    ]
      ≡ ok d'
    → (d' ≡ d) ⊎ Placed host id f d d'
Placed-after host id f none d d' e h = inl cc
Placed-after host id f (some n) d d' e h =
    let (free, rest) = guarded-eq-ok _ _ d' h in
    elim (Bool-cases (node_checks (f n))) [
      | inl c ↦ elim (Bool-cases (node_reference d (f n).parent_id)) [
        | inl r ↦ inr (record {
          updated = record { old = n; found = e; checks = c; result = ground arith };
          parent_kind = free;
          reference = r;
        })
        | inr r ↦ absurd (ground arith)
      ]
      | inr c ↦ absurd (ground arith)
    ]

pub update_node_place-eq-ok :
    (host : Host) (f : NodeRow → NodeRow) (id : String) (d d' : Db)
    → update_node_place host f id d ≡ ok d'
    → (d' ≡ d) ⊎ Placed host id f d d'
unfolding update_node_place
update_node_place-eq-ok host f id d d' h = Placed-after host id f (node_at d.nodes id) d d' refl h

pub delete_node_row-cases :
    (id : String) (d : Db)
    → (delete_node_row id d ≡ d) ⊎ (delete_node_row id d ≡ remove_nodes (subtree d.nodes id) d)
unfolding delete_node_row
delete_node_row-cases id d = elim (Option-cases (node_at d.nodes id)) [
  | inl e ↦ inl (rw (e, delete_node_row))
  | inr (n, e) ↦ inr (rw (e, delete_node_row))
]
