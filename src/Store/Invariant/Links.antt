-- ===== src/Store/Invariant/Links.antt =====
-- The foreign keys of `dependencies` and `events` on nodes(id), over each statement of
-- flowcore/src/store.rs.
use flowcontrol.Common.{
  ◌≡◌, refl, sym, subst, ap, inl, inr, Bool, true, false, not, ◌||◌, String, Option, none, some,
  List, [], ◌∷◌, ◌++◌, mem_str, arith,
}
use flowcontrol.Error.{ok, ok-injective}
use flowcontrol.Schema.{NodeRow, DependencyRow, EventRow, Db, Host}
use flowcontrol.Schema.Checks.{node_reference}
use flowcontrol.Schema.Cascade.{subtree, remove_nodes, opt_mem}
use flowcontrol.Schema.Links.{
  Present, Present-snoc, Present-update_if, AllPresent, Refers, Refers-mono, Refers-keep_if,
  Refers-snoc, Refers-cascade, Spared,
}
use flowcontrol.Statement.Syntax.{
  Statement, insert_node, insert_or_ignore_node, update_node, update_place, delete_node,
  insert_or_ignore_dependency, delete_dependency, upsert_agent, upsert_verdict,
  insert_or_ignore_key, insert_project,
}
use flowcontrol.Statement.Nodes.{
  insert_node_row, delete_node_row, node_of_values, set_column, set_place, touch, write_node,
}
use flowcontrol.Statement.Edges.{insert_edge, delete_edge, insert_key}
use flowcontrol.Statement.Projects.{insert_project_row}
use flowcontrol.Statement.Effect.{effect}
use flowcontrol.Statement.Events.{EventValues, event_references, insert_event}
use flowcontrol.Statement.Inversion.{
  Updated, delete_node_row-cases, insert_node_row-eq-ok, update_node_column-eq-ok,
  update_node_place-eq-ok,
}
use flowcontrol.Statement.EdgeInversion.{new_edge, insert_edge-eq-ok, upsert-others}
use flowcontrol.Store.Keeps.{Preserves}
use flowcontrol.Store.Invariant.Rows.{set_column_id}

abbrev pub ends : DependencyRow → List String
ends e = e.blocker_id ∷ e.blocked_id ∷ []

abbrev opt_list : Option String → List String
opt_list none = []
opt_list (some id) = id ∷ []

abbrev pub subject : EventRow → List String
subject e = opt_list e.node_id

-- Both ends of each dependency, and the node of each event that names one, are there.
pub record IsLinked (d : Db) : Type 0 where
  pub edges : Refers ends d.nodes d.dependencies
  pub log : Refers subject d.nodes d.events

-- What the foreign keys are about.
abbrev tables : Db → List NodeRow × List DependencyRow × List EventRow
tables d = (d.nodes, d.dependencies, d.events)

abbrev LinkedTables : List NodeRow × List DependencyRow × List EventRow → Type 0
LinkedTables (ns, es, vs) = Refers ends ns es × Refers subject ns vs

same_tables : (d d' : Db) → tables d' ≡ tables d → IsLinked d → IsLinked d'
same_tables d d' e h =
    let p = subst LinkedTables (sym e) (h.edges, h.log) in record { edges = p.0; log = p.1 }

more_nodes :
    (d d' : Db)
    → ((id : String) → Present d.nodes id → Present d'.nodes id)
    → d'.dependencies ≡ d.dependencies
    → d'.events ≡ d.events
    → IsLinked d
    → IsLinked d'
more_nodes d d' f e v h = record {
  edges = rw e (Refers-mono ends d.nodes d'.nodes d.dependencies f h.edges);
  log = rw v (Refers-mono subject d.nodes d'.nodes d.events f h.log);
}

Spared-edge :
    (gone : List String) (e : DependencyRow)
    → not (mem_str e.blocker_id gone || mem_str e.blocked_id gone) ≡ true
    → Spared gone (ends e)
Spared-edge gone e h = (ground (arith, h), (ground (arith, h), tt))

Spared-event :
    (gone : List String) (o : Option String)
    → not (opt_mem o gone) ≡ true
    → Spared gone (opt_list o)
Spared-event gone none h = tt
Spared-event gone (some id) h = (ground (arith, h), tt)

delete_node_row-IsLinked : (id : String) (d : Db) → IsLinked d → IsLinked (delete_node_row id d)
unfolding remove_nodes
delete_node_row-IsLinked id d h = elim (delete_node_row-cases id d) [
  | inl e ↦ rw e h
  | inr e ↦ rw e (record {
    edges =
        Refers-cascade ends (subtree d.nodes id) _ d.nodes d.dependencies
          (Spared-edge (subtree d.nodes id)) h.edges;
    log =
        Refers-cascade subject (subtree d.nodes id) _ d.nodes d.events
          (λ v. Spared-event (subtree d.nodes id) v.node_id) h.log;
  })
]

by_insert :
    (host : Host) (ignore : Bool) (new : NodeRow) (d d' : Db)
    → insert_node_row ignore host new d ≡ ok d'
    → IsLinked d
    → IsLinked d'
by_insert host ignore new d d' e h = elim (insert_node_row-eq-ok ignore host new d d' e) [
  | inl same ↦ subst IsLinked (sym same) h
  | inr i ↦ subst IsLinked (sym i.result) (
      more_nodes d (record d { nodes = d.nodes ++ new ∷ [] }) (Present-snoc d.nodes new) refl refl
        h)
]

by_update :
    (host : Host) (id : String) (f : NodeRow → NodeRow) (d d' : Db)
    → ((n : NodeRow) → (f n).id ≡ n.id)
    → Updated host id f d d'
    → IsLinked d
    → IsLinked d'
by_update host id f d d' same u h = subst IsLinked (sym u.result) (
    more_nodes d (write_node host id f d)
      (λ x. Present-update_if _ (λ n. touch host (f n)) d.nodes x same) refl refl h)

by_edge :
    (host : Host) (a b : String) (d d' : Db)
    → insert_edge host a b d ≡ ok d'
    → IsLinked d
    → IsLinked d'
unfolding node_reference
by_edge host a b d d' e h = elim (insert_edge-eq-ok host a b d d' e) [
  | inl same ↦ subst IsLinked (sym same) h
  | inr l ↦ subst IsLinked (sym l.result) (record {
    edges =
        Refers-snoc ends d.nodes d.dependencies (new_edge host a b) (l.blocker, (l.blocked, tt))
          h.edges;
    log = h.log;
  })
]

delete_edge-IsLinked : (a b : String) (d : Db) → IsLinked d → IsLinked (delete_edge a b d)
unfolding delete_edge
delete_edge-IsLinked a b d h = record {
  edges = Refers-keep_if ends d.nodes _ d.dependencies h.edges;
  log = h.log;
}

effect-IsLinked :
    (host : Host) (st : Statement) (d d' : Db) → effect host st d ≡ ok d' → IsLinked d → IsLinked d'
unfolding effect
effect-IsLinked host (insert_node v) d d' e h =
    by_insert host false (node_of_values host v) d d' e h
effect-IsLinked host (insert_or_ignore_node v) d d' e h =
    by_insert host true (node_of_values host v) d d' e h
effect-IsLinked host (update_node id c) d d' e h =
    elim (update_node_column-eq-ok host id (set_column c) d d' e) [
      | inl same ↦ subst IsLinked (sym same) h
      | inr u ↦ by_update host id (set_column c) d d' (set_column_id c) u h
    ]
effect-IsLinked host (update_place parent kind at id) d d' e h =
    elim (update_node_place-eq-ok host (set_place parent kind at) id d d' e) [
      | inl same ↦ subst IsLinked (sym same) h
      | inr p ↦ by_update host id (set_place parent kind at) d d' (λ n. refl) p.updated h
    ]
effect-IsLinked host (delete_node id) d d' e h =
    subst IsLinked (ok-injective e) (delete_node_row-IsLinked id d h)
effect-IsLinked host (insert_or_ignore_dependency a b) d d' e h = by_edge host a b d d' e h
effect-IsLinked host (delete_dependency a b) d d' e h =
    subst IsLinked (ok-injective e) (delete_edge-IsLinked a b d h)
effect-IsLinked host (upsert_agent id result name detail) d d' e h =
    same_tables d d' (ap tables (upsert-others host id _ d d' e).1) h
effect-IsLinked host (upsert_verdict id verdict) d d' e h =
    same_tables d d' (ap tables (upsert-others host id _ d d' e).1) h
effect-IsLinked host (insert_or_ignore_key scope key seq entity) d d' e h =
    same_tables d d' (unfold insert_key in ground arith) h
effect-IsLinked host (insert_project id name text) d d' e h =
    same_tables d d' (unfold insert_project_row in ground arith) h
effect-IsLinked host _ d d' e h = same_tables d d' (ground arith) h

-- An event that was put in names no node, or one that is there.
new_event :
    (host : Host) (v : EventValues) (d : Db) (e : EventRow)
    → insert_event host v d ≡ ok e
    → AllPresent d.nodes (subject e)
unfolding insert_event event_references node_reference
new_event host v d e p = named v.node_id e (ground (arith, p)) (ground (arith, p))
  where
    named :
        (o : Option String) (x : EventRow)
        → x.node_id ≡ o
        → node_reference d o ≡ true
        → AllPresent d.nodes (subject x)
    named none x q r = rw q tt
    named (some id) x q r = rw q (r, tt)

-- Every statement and every event keeps the foreign keys.
pub Linked-Preserves : Preserves IsLinked
Linked-Preserves = record {
  by_statement = effect-IsLinked;
  by_event = λ host v d e p h. record {
    edges = h.edges;
    log = Refers-snoc subject d.nodes d.events e (new_event host v d e p) h.log;
  };
}
