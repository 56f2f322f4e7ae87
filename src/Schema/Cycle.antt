-- ===== src/Schema/Cycle.antt =====
-- flowcore/migrations/0001_initial_schema.sql: trigger dependencies_no_cycle. Its recursive query
-- adds a row that is reached and not yet there until there is none.
pub mod Reachable
pub mod Acyclic
use flowcontrol.Common.{
  ℕ, zero, suc, Bool, not, ◌&&◌, String, Option, none, some, List, [], ◌∷◌, if◌then◌else◌, length,
  mem_str,
}
use flowcontrol.Schema.{DependencyRow}

-- The next row of the recursive query: a node that is blocked by one of `seen` and not in it.
unfoldable pub next_row : List DependencyRow → List String → Option String
next_row [] seen = none
next_row (d ∷ ds) seen =
    if mem_str d.blocker_id seen && not (mem_str d.blocked_id seen)
    then some d.blocked_id
    else next_row ds seen

-- WITH RECURSIVE downstream, on fuel.
unfoldable pub downstream : ℕ → List DependencyRow → List String → List String
unfolding next_row
downstream zero ds seen = seen
downstream (suc fuel) ds seen = elim (next_row ds seen) [
  | none ↦ seen
  | some id ↦ downstream fuel ds (id ∷ seen)
]

-- The edges are as many rows as the query can add.
unfoldable pub closes_cycle : List DependencyRow → String → String → Bool
unfolding downstream
closes_cycle ds blocker blocked = mem_str blocker (downstream (length ds) ds (blocked ∷ []))
