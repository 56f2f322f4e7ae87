-- ===== src/Store/Invariant/Acyclic.antt =====
-- Dependencies without cycles, over each statement of flowcore/src/store.rs.
use flowcontrol.Common.{◌≡◌, sym, subst, ◌⊎◌, inl, inr, Bool, true, false, String, List, arith, ap}
use flowcontrol.Error.{ok, ok-injective}
use flowcontrol.Schema.{NodeRow, Db, Host}
use flowcontrol.Schema.Cascade.{subtree, remove_nodes}
use flowcontrol.Schema.Cycle.Reachable.{closes_cycle_iff}
use flowcontrol.Schema.Cycle.Acyclic.{Acyclic, Within-Acyclic, keep_if-Within, snoc-Acyclic}
use flowcontrol.Statement.Syntax.{
  Statement, insert_node, insert_or_ignore_node, update_node, update_place, delete_node,
  insert_or_ignore_dependency, delete_dependency, upsert_agent, upsert_verdict,
  insert_or_ignore_key, insert_project,
}
use flowcontrol.Statement.Nodes.{
  insert_node_row, delete_node_row, node_of_values, set_column, set_place,
}
use flowcontrol.Statement.Edges.{delete_edge, insert_key}
use flowcontrol.Statement.Projects.{insert_project_row}
use flowcontrol.Statement.Effect.{effect}
use flowcontrol.Statement.Events.{insert_event}
use flowcontrol.Statement.Inversion.{
  delete_node_row-cases, insert_node_row-eq-ok, update_node_column-eq-ok, update_node_place-eq-ok,
}
use flowcontrol.Statement.EdgeInversion.{Linked, insert_edge-eq-ok, upsert-others}
use flowcontrol.Store.Keeps.{Preserves}

-- The table of dependencies is a graph without cycles.
pub record IsAcyclic (d : Db) : Type 0 where
  pub edges : Acyclic d.dependencies

same_edges : (d d' : Db) → d'.dependencies ≡ d.dependencies → IsAcyclic d → IsAcyclic d'
same_edges d d' e h = record { edges = subst Acyclic (sym e) h.edges }

remove_nodes-IsAcyclic :
    (gone : List String) (d : Db) → IsAcyclic d → IsAcyclic (remove_nodes gone d)
unfolding remove_nodes
remove_nodes-IsAcyclic gone d h = record {
  edges = Within-Acyclic _ d.dependencies (keep_if-Within _ d.dependencies) h.edges;
}

delete_node_row-IsAcyclic : (id : String) (d : Db) → IsAcyclic d → IsAcyclic (delete_node_row id d)
delete_node_row-IsAcyclic id d h = elim (delete_node_row-cases id d) [
  | inl e ↦ rw e h
  | inr e ↦ rw e (remove_nodes-IsAcyclic (subtree d.nodes id) d h)
]

delete_edge-IsAcyclic : (a b : String) (d : Db) → IsAcyclic d → IsAcyclic (delete_edge a b d)
unfolding delete_edge
delete_edge-IsAcyclic a b d h = record {
  edges = Within-Acyclic _ d.dependencies (keep_if-Within _ d.dependencies) h.edges;
}

Linked-IsAcyclic :
    (host : Host) (a b : String) (d d' : Db)
    → (d' ≡ d) ⊎ Linked host a b d d'
    → IsAcyclic d
    → IsAcyclic d'
Linked-IsAcyclic host a b d d' (inl e) h = subst IsAcyclic (sym e) h
Linked-IsAcyclic host a b d d' (inr l) h = subst IsAcyclic (sym l.result) (record {
  edges =
      snoc-Acyclic d.dependencies _ h.edges
        (λ r. cc (l.no_cycle, (closes_cycle_iff d.dependencies a b).1 r));
})

by_insert :
    (host : Host) (ignore : Bool) (new : NodeRow) (d d' : Db)
    → insert_node_row ignore host new d ≡ ok d'
    → d'.dependencies ≡ d.dependencies
by_insert host ignore new d d' e = elim (insert_node_row-eq-ok ignore host new d d' e) [
  | inl same ↦ ap (λ (x : Db). x.dependencies) same
  | inr i ↦ ap (λ (x : Db). x.dependencies) i.result
]

effect-IsAcyclic :
    (host : Host) (st : Statement) (d d' : Db)
    → effect host st d ≡ ok d'
    → IsAcyclic d
    → IsAcyclic d'
unfolding effect
effect-IsAcyclic host (insert_node v) d d' e h =
    same_edges d d' (by_insert host false (node_of_values host v) d d' e) h
effect-IsAcyclic host (insert_or_ignore_node v) d d' e h =
    same_edges d d' (by_insert host true (node_of_values host v) d d' e) h
effect-IsAcyclic host (update_node id c) d d' e h =
    elim (update_node_column-eq-ok host id (set_column c) d d' e) [
      | inl same ↦ subst IsAcyclic (sym same) h
      | inr u ↦ same_edges d d' (ap (λ (x : Db). x.dependencies) u.result) h
    ]
effect-IsAcyclic host (update_place parent kind at id) d d' e h =
    elim (update_node_place-eq-ok host (set_place parent kind at) id d d' e) [
      | inl same ↦ subst IsAcyclic (sym same) h
      | inr p ↦ same_edges d d' (ap (λ (x : Db). x.dependencies) p.updated.result) h
    ]
effect-IsAcyclic host (delete_node id) d d' e h =
    subst IsAcyclic (ok-injective e) (delete_node_row-IsAcyclic id d h)
effect-IsAcyclic host (insert_or_ignore_dependency a b) d d' e h =
    Linked-IsAcyclic host a b d d' (insert_edge-eq-ok host a b d d' e) h
effect-IsAcyclic host (delete_dependency a b) d d' e h =
    subst IsAcyclic (ok-injective e) (delete_edge-IsAcyclic a b d h)
effect-IsAcyclic host (upsert_agent id result name detail) d d' e h =
    same_edges d d' (ap (λ (x : Db). x.dependencies) (upsert-others host id _ d d' e).1) h
effect-IsAcyclic host (upsert_verdict id verdict) d d' e h =
    same_edges d d' (ap (λ (x : Db). x.dependencies) (upsert-others host id _ d d' e).1) h
effect-IsAcyclic host (insert_or_ignore_key scope key seq entity) d d' e h =
    same_edges d d' (unfold insert_key in ground arith) h
effect-IsAcyclic host (insert_project id name text) d d' e h =
    same_edges d d' (unfold insert_project_row in ground arith) h
effect-IsAcyclic host _ d d' e h = same_edges d d' (ground arith) h

-- No statement makes a cycle.
pub Acyclic-Preserves : Preserves IsAcyclic
unfolding insert_event
Acyclic-Preserves = record {
  by_statement = effect-IsAcyclic;
  by_event = λ host v d e p h. record { edges = h.edges };
}
