-- ===== src/Store/Invariant/Rows.antt =====
-- The CHECKs and the primary key of `nodes`, over each statement of flowcore/src/store.rs.
use flowcontrol.Common.{◌≡◌, refl, sym, subst, inl, inr, Bool, true, false, String, arith, ap}
use flowcontrol.Error.{ok, ok-injective}
use flowcontrol.Schema.{NodeRow, Db, Host}
use flowcontrol.Schema.Checks.{node_checks}
use flowcontrol.Schema.Cascade.{remove_nodes}
use flowcontrol.Schema.Rows.{Sound, Sound-snoc, Sound-keep_if, Sound-update_if}
use flowcontrol.Statement.Syntax.{
  Statement, Column, title, description, condition, reference, note, declared_status, position,
  wp_state, insert_node, insert_or_ignore_node, update_node, update_place, delete_node,
  insert_or_ignore_dependency, delete_dependency, upsert_agent, upsert_verdict,
  insert_or_ignore_key, insert_project,
}
use flowcontrol.Statement.Nodes.{
  insert_node_row, delete_node_row, node_of_values, set_column, set_place, touch,
}
use flowcontrol.Statement.Edges.{delete_edge, insert_key}
use flowcontrol.Statement.Projects.{insert_project_row}
use flowcontrol.Statement.Effect.{effect}
use flowcontrol.Statement.Events.{insert_event}
use flowcontrol.Statement.Inversion.{
  Updated, delete_node_row-cases, insert_node_row-eq-ok, update_node_column-eq-ok,
  update_node_place-eq-ok,
}
use flowcontrol.Statement.EdgeInversion.{insert_edge-eq-ok, upsert-others}
use flowcontrol.Store.Keeps.{Preserves}

pub record IsSound (d : Db) : Type 0 where
  pub rows : Sound d.nodes

same_rows : (d d' : Db) → d'.nodes ≡ d.nodes → IsSound d → IsSound d'
same_rows d d' e h = record { rows = subst Sound (sym e) h.rows }

delete_node_row-IsSound : (id : String) (d : Db) → IsSound d → IsSound (delete_node_row id d)
unfolding remove_nodes
delete_node_row-IsSound id d h = elim (delete_node_row-cases id d) [
  | inl e ↦ rw e h
  | inr e ↦ rw e (record { rows = Sound-keep_if _ d.nodes h.rows })
]

by_insert :
    (host : Host) (ignore : Bool) (new : NodeRow) (d d' : Db)
    → insert_node_row ignore host new d ≡ ok d'
    → IsSound d
    → IsSound d'
by_insert host ignore new d d' e h = elim (insert_node_row-eq-ok ignore host new d d' e) [
  | inl same ↦ subst IsSound (sym same) h
  | inr i ↦
      subst IsSound (sym i.result)
        (record { rows = Sound-snoc d.nodes new i.checks i.unique h.rows })
]

-- The trigger that touches a row changes nothing that a CHECK reads.
touched : (host : Host) (n : NodeRow) → node_checks n ≡ true → node_checks (touch host n) ≡ true
unfolding node_checks
touched host n h = h

by_update :
    (host : Host) (id : String) (f : NodeRow → NodeRow) (d d' : Db)
    → ((n : NodeRow) → (f n).id ≡ n.id)
    → Updated host id f d d'
    → IsSound d
    → IsSound d'
by_update host id f d d' same u h = subst IsSound (sym u.result) (record {
  rows =
      Sound-update_if (λ n. touch host (f n)) id u.old d.nodes same u.found
        (touched host (f u.old) u.checks) h.rows;
})

pub set_column_id : (c : Column) (n : NodeRow) → (set_column c n).id ≡ n.id
set_column_id (title s) n = refl
set_column_id (description s) n = refl
set_column_id (condition s) n = refl
set_column_id (reference s) n = refl
set_column_id (note s) n = refl
set_column_id (declared_status s) n = refl
set_column_id (position p) n = refl
set_column_id (wp_state w) n = refl

effect-IsSound :
    (host : Host) (st : Statement) (d d' : Db) → effect host st d ≡ ok d' → IsSound d → IsSound d'
unfolding effect
effect-IsSound host (insert_node v) d d' e h = by_insert host false (node_of_values host v) d d' e h
effect-IsSound host (insert_or_ignore_node v) d d' e h =
    by_insert host true (node_of_values host v) d d' e h
effect-IsSound host (update_node id c) d d' e h =
    elim (update_node_column-eq-ok host id (set_column c) d d' e) [
      | inl same ↦ subst IsSound (sym same) h
      | inr u ↦ by_update host id (set_column c) d d' (set_column_id c) u h
    ]
effect-IsSound host (update_place parent kind at id) d d' e h =
    elim (update_node_place-eq-ok host (set_place parent kind at) id d d' e) [
      | inl same ↦ subst IsSound (sym same) h
      | inr p ↦ by_update host id (set_place parent kind at) d d' (λ n. refl) p.updated h
    ]
effect-IsSound host (delete_node id) d d' e h =
    subst IsSound (ok-injective e) (delete_node_row-IsSound id d h)
effect-IsSound host (insert_or_ignore_dependency a b) d d' e h =
    elim (insert_edge-eq-ok host a b d d' e) [
      | inl same ↦ subst IsSound (sym same) h
      | inr l ↦ same_rows d d' (ap (λ (x : Db). x.nodes) l.result) h
    ]
effect-IsSound host (delete_dependency a b) d d' e h =
    same_rows d d' (unfold delete_edge in ground arith) h
effect-IsSound host (upsert_agent id result name detail) d d' e h =
    same_rows d d' (ap (λ (x : Db). x.nodes) (upsert-others host id _ d d' e).1) h
effect-IsSound host (upsert_verdict id verdict) d d' e h =
    same_rows d d' (ap (λ (x : Db). x.nodes) (upsert-others host id _ d d' e).1) h
effect-IsSound host (insert_or_ignore_key scope key seq entity) d d' e h =
    same_rows d d' (unfold insert_key in ground arith) h
effect-IsSound host (insert_project id name text) d d' e h =
    same_rows d d' (unfold insert_project_row in ground arith) h
effect-IsSound host _ d d' e h = same_rows d d' (ground arith) h

-- Every statement and every event keeps the rows sound.
pub Sound-Preserves : Preserves IsSound
unfolding insert_event
Sound-Preserves = record {
  by_statement = effect-IsSound;
  by_event = λ host v d e p h. record { rows = h.rows };
}
