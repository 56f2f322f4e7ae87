-- ===== src/Schema/View.antt =====
-- flowcore/migrations/0001_initial_schema.sql: the view node_state, which derives a node's
-- effective status from its declared status and its direct blockers.
pub mod Ready
use flowcontrol.Common.{
  Bool, false, not, ◌&&◌, String, Option, none, some, ◌==◌, if◌then◌else◌, any,
}
use flowcontrol.Schema.{NodeRow, DependencyRow, Db}
use flowcontrol.Schema.Checks.{node_at}

-- The blocker of an edge is there and not DONE.
abbrev pub is_open : Option NodeRow → Bool
is_open none = false
is_open (some b) = not (b.declared_status == "DONE")

-- EXISTS (SELECT 1 FROM dependencies d JOIN nodes b ON b.id = d.blocker_id
--         WHERE d.blocked_id = id AND b.declared_status <> 'DONE')
unfoldable pub has_open_blocker : Db → String → Bool
unfolding node_at
has_open_blocker d id =
    any (λ (e : DependencyRow). e.blocked_id == id && is_open (node_at d.nodes e.blocker_id))
      d.dependencies

-- The column `status` of node_state.
unfoldable pub effective : Db → NodeRow → String
unfolding has_open_blocker
effective d n =
    if n.declared_status == "DONE"
    then "DONE"
    else if n.declared_status == "DEFERRED"
    then "DEFERRED"
    else if has_open_blocker d n.id
    then "BLOCKED"
    else "READY"
