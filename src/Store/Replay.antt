-- ===== src/Store/Replay.antt =====
-- flowcore/src/store.rs: a write whose idempotency key the ledger already holds.
use flowcontrol.Common.{String, Option, some, ◌≡◌, refl}
use flowcontrol.Schema.{Host, NodeRow, IdempotencyRow}
use flowcontrol.Schema.Checks.{node_at}
use flowcontrol.Sql.{done}
use flowcontrol.Message.{WriteMeta}
use flowcontrol.Statement.{Conn}
use flowcontrol.Store.Reads.{check_idempotency, ledger_at, project_of}
use flowcontrol.Store.Reads.Faithful.{fetch_node_lem}
use flowcontrol.Store.Helpers.{idem_key, empty_mutation}
use flowcontrol.Store.Nodes.{update_node_locked}
use flowcontrol.Store.Delete.{delete_node_locked, set_status_locked}
use flowcontrol.Store.Edges.{add_dependency_locked, remove_dependency_locked}
use flowcontrol.Store.Reports.{report_condition_locked, set_verdict_locked, add_comment_locked}
use flowcontrol.Store.Moves.{move_node_locked}
use flowcontrol.Store.Dispatch.{
  Request, update_node, delete_node, set_status, report_condition, set_verdict, add_comment,
  move_node, add_dependency, remove_dependency, mutation, dispatch,
}

-- The node is there, and its project's ledger holds the request's key with this entry.
pub record Recorded (c : Conn) (entry : IdempotencyRow) (id : String) (meta : Option WriteMeta)
    : Type 0 where
  pub node : NodeRow
  pub key : String
  pub found : node_at c.db.nodes id ≡ some node
  pub has_key : idem_key meta ≡ some key
  pub recorded : ledger_at c.db node.project_id key ≡ some entry

-- A write to a node, or to an edge by its blocker, whose key is in the ledger.
abbrev pub Known : Conn → IdempotencyRow → Request → Type 0
Known c entry (update_node r) = Recorded c entry r.node_id r.meta
Known c entry (delete_node r) = Recorded c entry r.node_id r.meta
Known c entry (set_status r) = Recorded c entry r.node_id r.meta
Known c entry (report_condition r) = Recorded c entry r.node_id r.meta
Known c entry (set_verdict r) = Recorded c entry r.node_id r.meta
Known c entry (add_comment r) = Recorded c entry r.node_id r.meta
Known c entry (move_node r) = Recorded c entry r.node_id r.meta
Known c entry (add_dependency r) = Recorded c entry r.blocker_id r.meta
Known c entry (remove_dependency r) = Recorded c entry r.blocker_id r.meta
Known c entry _ = ⊥

-- A write to a node or to an edge whose idempotency key the ledger of the node's project holds is
-- answered with the recorded number and nothing else, and leaves the session as it was. The kind of
-- the write that recorded the key does not matter.
pub dispatch-replays :
    (host : Host) (c : Conn) (entry : IdempotencyRow) (req : Request)
    → Known c entry req
    → dispatch host req c ≡ done (mutation (empty_mutation entry.seq)) c
unfolding dispatch update_node_locked delete_node_locked set_status_locked report_condition_locked
    set_verdict_locked add_comment_locked move_node_locked add_dependency_locked
    remove_dependency_locked check_idempotency project_of
dispatch-replays host c entry (update_node q) r =
    rw (fetch_node_lem q.node_id c, r.found, r.has_key, r.recorded) refl
dispatch-replays host c entry (delete_node q) r =
    rw (fetch_node_lem q.node_id c, r.found, r.has_key, r.recorded) refl
dispatch-replays host c entry (set_status q) r =
    rw (fetch_node_lem q.node_id c, r.found, r.has_key, r.recorded) refl
dispatch-replays host c entry (report_condition q) r =
    rw (fetch_node_lem q.node_id c, r.found, r.has_key, r.recorded) refl
dispatch-replays host c entry (set_verdict q) r =
    rw (fetch_node_lem q.node_id c, r.found, r.has_key, r.recorded) refl
dispatch-replays host c entry (add_comment q) r =
    rw (fetch_node_lem q.node_id c, r.found, r.has_key, r.recorded) refl
dispatch-replays host c entry (move_node q) r =
    rw (fetch_node_lem q.node_id c, r.found, r.has_key, r.recorded) refl
dispatch-replays host c entry (add_dependency q) r = rw (r.found, r.has_key, r.recorded) refl
dispatch-replays host c entry (remove_dependency q) r = rw (r.found, r.has_key, r.recorded) refl
dispatch-replays host c entry _ r = absurd r
