-- ===== src/Schema/Cascade.antt =====
-- flowcore/migrations/0001_initial_schema.sql: ON DELETE CASCADE from `nodes`. A deleted node takes
-- its children, its verification, its dependencies and its events with it.
use flowcontrol.Common.{
  ℕ, zero, suc, Bool, not, String, Option, none, some, List, [], ◌∷◌, ◌++◌, if◌then◌else◌, length,
  mem_str, keep_if, ◌||◌,
}
use flowcontrol.Schema.{NodeRow, VerificationRow, DependencyRow, EventRow, Db}
use flowcontrol.Schema.Checks.{has_parent}

-- `SELECT n.id FROM nodes n JOIN subtree s ON n.parent_id = s.id`, for one generation.
abbrev pub has_parent_in : List String → NodeRow → Bool
has_parent_in [] n = Bool.false
has_parent_in (id ∷ ids) n = has_parent id n || has_parent_in ids n

unfoldable pub children_of : List NodeRow → List String → List String
unfolding has_parent
children_of [] ids = []
children_of (n ∷ ns) ids =
    let rest = children_of ns ids in if has_parent_in ids n then n.id ∷ rest else rest

-- The generations below `ids`, on fuel. UNION ALL, which takes the rows in the order they come.
unfoldable pub below : ℕ → List NodeRow → List String → List String
unfolding children_of
below zero nodes ids = []
below (suc fuel) nodes ids = let kids = children_of nodes ids in kids ++ below fuel nodes kids

-- WITH RECURSIVE subtree(id): the node and all below it.
unfoldable pub subtree : List NodeRow → String → List String
unfolding below
subtree nodes id = id ∷ below (length nodes) nodes (id ∷ [])

abbrev pub opt_mem : Option String → List String → Bool
opt_mem none ids = Bool.false
opt_mem (some id) ids = mem_str id ids

-- Remove the nodes `gone`, and the rows that refer to one of them.
unfoldable pub remove_nodes : List String → Db → Db
remove_nodes gone d = record d {
  nodes = keep_if (λ (n : NodeRow). not (mem_str n.id gone)) d.nodes;
  verifications = keep_if (λ (v : VerificationRow). not (mem_str v.node_id gone)) d.verifications;
  dependencies =
      keep_if (λ (e : DependencyRow). not (mem_str e.blocker_id gone || mem_str e.blocked_id gone))
        d.dependencies;
  events = keep_if (λ (e : EventRow). not (opt_mem e.node_id gone)) d.events;
}
