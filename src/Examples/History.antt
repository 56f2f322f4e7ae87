-- ===== src/Examples/History.antt =====
-- Histories on a small plan.
use flowcontrol.Common.{
  inl, inr, arith, ◌≡◌, none, some, length, ap, refl, pos, false, [], ◌∷◌, List,
}
use flowcontrol.Schema.{Db, Host, NodeRow}
use flowcontrol.Schema.Tree.{Placed, Tree}
use flowcontrol.Schema.Tree.Below.{below-ends}
use flowcontrol.Schema.Cascade.{below}
use flowcontrol.Schema.Cycle.{closes_cycle}
use flowcontrol.Schema.Cycle.Reachable.{closes_cycle_iff, Reach}
use flowcontrol.Schema.Cycle.Acyclic.{snoc-Acyclic}
use flowcontrol.Examples.Samples.{
  sample_host, sample_db, sample_edge, sample_meta, sample_db-IsSound, sample_node,
  sample_db-IsOrdered,
}
use flowcontrol.Statement.{Conn}
use flowcontrol.Store.Keeps.{On}
use flowcontrol.Store.Dispatch.{Request, add_dependency, set_status, delete_node, run}
use flowcontrol.Store.History.{
  run-IsAcyclic, run-IsOrdered, run-IsSound, run-IsLinked, run-IsHierarchy,
}
use flowcontrol.Store.Invariant.Acyclic.{IsAcyclic}
use flowcontrol.Store.Invariant.Hierarchy.{IsHierarchy}
use flowcontrol.Store.Invariant.Links.{IsLinked}
use flowcontrol.Schema.Checks.{node_at, parent_kind}
use flowcontrol.Store.Invariant.Rows.{IsSound}
use flowcontrol.Store.Invariant.Log.{IsOrdered}

abbrev requests : List (Host × Request)
requests =
    (
      sample_host,
      set_status (record { meta = sample_meta; node_id = "t1"; declared_status = pos 3 }),
    )
    ∷ (
      sample_host,
      add_dependency (record { meta = sample_meta; blocker_id = "t2"; blocked_id = "t1" }),
    )
    ∷ (
      sample_host,
      delete_node (record { meta = sample_meta; node_id = "t2"; fail_if_referenced = false }),
    )
    ∷ []

abbrev start : Conn
start = record { db = sample_db; saved = none }

at_start : {P : Db → Type 0} → P sample_db → On P start
at_start h = record { now = h; before = tt }

no_way_back : ¬ Reach [] "t2" "t1"
unfolding closes_cycle
no_way_back r = cc ((closes_cycle_iff [] "t1" "t2").1 r)

sample_db-IsAcyclic : IsAcyclic sample_db
sample_db-IsAcyclic = record { edges = snoc-Acyclic [] sample_edge (λ a b e r. e) no_way_back }

run-IsAcyclic_example : On IsAcyclic (run start requests)
run-IsAcyclic_example = run-IsAcyclic requests start (at_start sample_db-IsAcyclic)

run-IsOrdered_example : On IsOrdered (run start requests)
run-IsOrdered_example = run-IsOrdered requests start (at_start sample_db-IsOrdered)

run-IsSound_example : On IsSound (run start requests)
run-IsSound_example = run-IsSound requests start (at_start sample_db-IsSound)

sample_db-IsLinked : IsLinked sample_db
unfolding node_at
sample_db-IsLinked = record { edges = ((refl, (refl, tt)), tt); log = ((refl, tt), tt) }

run-IsLinked_example : On IsLinked (run start requests)
run-IsLinked_example = run-IsLinked requests start (at_start sample_db-IsLinked)

in_w : (n : NodeRow) → n.parent_id ≡ some "w" → n.kind ≡ "TASK" → Placed sample_db.nodes n
unfolding node_at parent_kind
in_w n e k = inr (record {
  id = "w";
  row = sample_node "w" none "WORK_PACKAGE" "OPEN" (some "PLANNED");
  named = e;
  found = refl;
  above = rw k refl;
})

sample_db-Tree : Tree sample_db.nodes
sample_db-Tree = record {
  sound = sample_db-IsSound.rows;
  placed = λ n a. elim a [
    | inl q ↦ inl (ap (λ (y : NodeRow). y.parent_id) q)
    | inr (inl q) ↦ in_w n (ap (λ (y : NodeRow). y.parent_id) q) (ap (λ (y : NodeRow). y.kind) q)
    | inr (inr (inl q)) ↦
        in_w n (ap (λ (y : NodeRow). y.parent_id) q) (ap (λ (y : NodeRow). y.kind) q)
    | inr (inr (inr h)) ↦ absurd h
  ];
}

run-IsHierarchy_example : On IsHierarchy (run start requests)
run-IsHierarchy_example =
    run-IsHierarchy requests start (at_start (record { tree = sample_db-Tree }))

below-ends_example :
    below 5 sample_db.nodes ("w" ∷ []) ≡ below (length sample_db.nodes) sample_db.nodes ("w" ∷ [])
below-ends_example = below-ends sample_db.nodes "w" 5 sample_db-Tree (omega arith)
