-- ===== src/Store/Invariant/Hierarchy.antt =====
-- The hierarchy of nodes, over each statement of flowcore/src/store.rs.
pub mod Tested
use flowcontrol.Common.{
  ◌≡◌, ◌⊎◌, refl, sym, subst, inl, inr, Bool, true, false, not, ◌&&◌, String, Option, none, some,
  List, [], ◌∷◌, ◌==◌, eq_iff, eq_refl, arith, ap, Option-cases, option_map, ◌∙◌, Among,
  Among-keep_if, keep_if, mem_str, any, Bool-cases, if◌then◌else◌, ℤ,
}
use flowcontrol.Error.{ok, ok-injective}
use flowcontrol.Schema.{NodeRow, Db, Host}
use flowcontrol.Schema.Checks.{
  node_at, node_checks, parent_kind, child_kind, parent_kind_insert, parent_kind_update, is,
  kind_at, abort_if, other_project, has_parent,
}
use flowcontrol.Schema.Cascade.{remove_nodes, subtree}
use flowcontrol.Schema.Rows.{Sound, Sound-keep_if}
use flowcontrol.Schema.Tree.{HasParent, Placed, Tree, is-eq-true, node_at-id, parent_kind-checks}
use flowcontrol.Schema.Tree.Changes.{Fits, updated, Tree-snoc, Tree-updated, Tree-moved}
use flowcontrol.Schema.Tree.Removed.{Tree-removed}
use flowcontrol.Statement.Syntax.{
  Statement, Column, title, description, condition, reference, note, declared_status, position,
  wp_state, insert_node, insert_or_ignore_node, update_node, update_place, delete_node,
  insert_or_ignore_dependency, delete_dependency, upsert_agent, upsert_verdict,
  insert_or_ignore_key, insert_project,
}
use flowcontrol.Statement.Nodes.{
  insert_node_row, delete_node_row, node_of_values, set_column, set_place, touch, null_if_empty,
}
use flowcontrol.Statement.Edges.{delete_edge, insert_key}
use flowcontrol.Statement.Projects.{insert_project_row}
use flowcontrol.Statement.Effect.{effect}
use flowcontrol.Statement.Events.{insert_event}
use flowcontrol.Statement.Inversion
use flowcontrol.Statement.Inversion.{
  Inserted, Updated, delete_node_row-cases, insert_node_row-eq-ok, update_node_column-eq-ok,
  update_node_place-eq-ok,
}
use flowcontrol.Statement.EdgeInversion.{insert_edge-eq-ok, upsert-others}
use flowcontrol.Store.Keeps.{Preserves}
use flowcontrol.Store.Invariant.Rows.{IsSound, Sound-Preserves, set_column_id}
use flowcontrol.Store.Invariant.Hierarchy.Tested.{
  not_aborted, not-false, passed_parent, Inserted-row, update_tested, children_tested, any-none,
  set_column_kind, set_column_parent_id, both-false, names_it,
}

pub record IsHierarchy (d : Db) : Type 0 where
  pub tree : Tree d.nodes

same_nodes : (d d' : Db) → d'.nodes ≡ d.nodes → IsHierarchy d → IsHierarchy d'
same_nodes d d' e h = record { tree = subst Tree (sym e) h.tree }

-- The rows after a statement are sound, as they were before.
Sound-after :
    (host : Host) (st : Statement) (d d' : Db)
    → effect host st d ≡ ok d'
    → IsHierarchy d
    → Sound d'.nodes
Sound-after host st d d' e h =
    (Sound-Preserves.by_statement host st d d' e (record { rows = h.tree.sound })).rows

-- A row that was moved fits where it went.
moved-Fits :
    (host : Host) (id parent kind : String) (at : ℤ) (d d' : Db)
    → Inversion.Placed host id (set_place parent kind at) d d'
    → Fits d.nodes id (null_if_empty parent) kind
unfolding parent_kind_update
moved-Fits host id parent kind at d d' p = record {
  under = elim (Option-cases (null_if_empty parent)) [
    | inl e ↦ inl e
    | inr (x, e) ↦
        let (own, above) = update_tested d new x (null_if_empty parent) _ e p.parent_kind in
        let (r, f, same) = passed_parent d.nodes new x p.updated.checks e above in
        inr (x, r, e, subst (λ y. (x == y) ≡ false) is_id own, f, same)
  ];
  over = λ c a named.
      let (none_bad, rest) =
        not_aborted _ "children invalid for new kind" none
          (children_tested d new (null_if_empty parent) _ p.parent_kind) in
      child_fits c (named ∙ ap some (sym is_id)) (any-none _ d.nodes c none_bad a);
}
  where
    new : NodeRow
    new = set_place parent kind at p.updated.old

    is_id : p.updated.old.id ≡ id
    is_id = node_at-id d.nodes id p.updated.old p.updated.found

    child_fits :
        (c : NodeRow)
        → c.parent_id ≡ some p.updated.old.id
        → (has_parent p.updated.old.id c && not (is (some c.kind) (child_kind kind))) ≡ false
        → child_kind kind ≡ some c.kind
    child_fits c named h = sym (is-eq-true _ _ (not-false _ (both-false _ _ (names_it c named) h)))

by_insert :
    (host : Host) (ignore : Bool) (new : NodeRow) (d d' : Db)
    → Sound d'.nodes
    → insert_node_row ignore host new d ≡ ok d'
    → IsHierarchy d
    → IsHierarchy d'
by_insert host ignore new d d' s e h = elim (insert_node_row-eq-ok ignore host new d d' e) [
  | inl same ↦ subst IsHierarchy (sym same) h
  | inr i ↦ record {
    tree = subst Tree (sym (ap (λ (x : Db). x.nodes) i.result)) (
        Tree-snoc d.nodes new h.tree (subst Sound (ap (λ (x : Db). x.nodes) i.result) s)
          (Inserted-row new d d' i));
  }
]

by_column :
    (host : Host) (id : String) (c : Column) (d d' : Db)
    → Sound d'.nodes
    → Updated host id (set_column c) d d'
    → IsHierarchy d
    → IsHierarchy d'
unfolding updated
by_column host id c d d' s u h = record {
  tree = subst Tree (sym (ap (λ (x : Db). x.nodes) u.result)) (
      Tree-updated id (λ n. touch host (set_column c n)) d.nodes h.tree (set_column_id c)
        (set_column_kind c) (set_column_parent_id c)
        (subst Sound (ap (λ (x : Db). x.nodes) u.result) s));
}

by_place :
    (host : Host) (id parent kind : String) (at : ℤ) (d d' : Db)
    → Sound d'.nodes
    → Inversion.Placed host id (set_place parent kind at) d d'
    → IsHierarchy d
    → IsHierarchy d'
unfolding updated
by_place host id parent kind at d d' s p h = record {
  tree = subst Tree (sym (ap (λ (x : Db). x.nodes) p.updated.result)) (
      Tree-moved id (λ n. touch host (set_place parent kind at n)) (null_if_empty parent) kind
        d.nodes h.tree (moved-Fits host id parent kind at d d' p) (λ n. refl) (λ n. refl)
        (λ n. refl) (subst Sound (ap (λ (x : Db). x.nodes) p.updated.result) s));
}

delete_node_row-IsHierarchy :
    (id : String) (d : Db) → IsHierarchy d → IsHierarchy (delete_node_row id d)
unfolding remove_nodes
delete_node_row-IsHierarchy id d h = elim (delete_node_row-cases id d) [
  | inl e ↦ rw e h
  | inr e ↦ rw e (record { tree = Tree-removed d.nodes id h.tree })
]

effect-IsHierarchy :
    (host : Host) (st : Statement) (d d' : Db)
    → effect host st d ≡ ok d'
    → IsHierarchy d
    → IsHierarchy d'
unfolding effect
effect-IsHierarchy host (insert_node v) d d' e h =
    by_insert host false (node_of_values host v) d d' (Sound-after host (insert_node v) d d' e h) e
      h
effect-IsHierarchy host (insert_or_ignore_node v) d d' e h =
    by_insert host true (node_of_values host v) d d'
      (Sound-after host (insert_or_ignore_node v) d d' e h) e h
effect-IsHierarchy host (update_node id c) d d' e h =
    elim (update_node_column-eq-ok host id (set_column c) d d' e) [
      | inl same ↦ subst IsHierarchy (sym same) h
      | inr u ↦ by_column host id c d d' (Sound-after host (update_node id c) d d' e h) u h
    ]
effect-IsHierarchy host (update_place parent kind at id) d d' e h =
    elim (update_node_place-eq-ok host (set_place parent kind at) id d d' e) [
      | inl same ↦ subst IsHierarchy (sym same) h
      | inr p ↦
          by_place host id parent kind at d d'
            (Sound-after host (update_place parent kind at id) d d' e h) p h
    ]
effect-IsHierarchy host (delete_node id) d d' e h =
    subst IsHierarchy (ok-injective e) (delete_node_row-IsHierarchy id d h)
effect-IsHierarchy host (insert_or_ignore_dependency a b) d d' e h =
    elim (insert_edge-eq-ok host a b d d' e) [
      | inl same ↦ subst IsHierarchy (sym same) h
      | inr l ↦ same_nodes d d' (ap (λ (x : Db). x.nodes) l.result) h
    ]
effect-IsHierarchy host (delete_dependency a b) d d' e h =
    same_nodes d d' (unfold delete_edge in ground arith) h
effect-IsHierarchy host (upsert_agent id result name detail) d d' e h =
    same_nodes d d' (ap (λ (x : Db). x.nodes) (upsert-others host id _ d d' e).1) h
effect-IsHierarchy host (upsert_verdict id verdict) d d' e h =
    same_nodes d d' (ap (λ (x : Db). x.nodes) (upsert-others host id _ d d' e).1) h
effect-IsHierarchy host (insert_or_ignore_key scope key seq entity) d d' e h =
    same_nodes d d' (unfold insert_key in ground arith) h
effect-IsHierarchy host (insert_project id name text) d d' e h =
    same_nodes d d' (unfold insert_project_row in ground arith) h
effect-IsHierarchy host _ d d' e h = same_nodes d d' (ground arith) h

-- Every statement and every event keeps the hierarchy.
pub Hierarchy-Preserves : Preserves IsHierarchy
unfolding insert_event
Hierarchy-Preserves = record {
  by_statement = effect-IsHierarchy;
  by_event = λ host v d e p h. record { tree = h.tree };
}
