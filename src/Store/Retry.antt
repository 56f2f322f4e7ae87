-- ===== src/Store/Retry.antt =====
-- flowcore/src/store.rs: a write that is sent again, after any history of requests.
use flowcontrol.Common.{String, Option, none, some, List, ◌≡◌, subst, sym}
use flowcontrol.Schema.{Host, NodeRow, IdempotencyRow}
use flowcontrol.Schema.Checks.{node_at}
use flowcontrol.Sql.{done}
use flowcontrol.Message.{WriteMeta}
use flowcontrol.Statement.{Conn}
use flowcontrol.Store.Reads.{ledger_at}
use flowcontrol.Store.Helpers.{idem_key, empty_mutation}
use flowcontrol.Store.Dispatch.{
  Request, update_node, delete_node, set_status, report_condition, set_verdict, add_comment,
  move_node, add_dependency, remove_dependency, mutation, dispatch, run,
}
use flowcontrol.Store.Keeps.{Saved}
use flowcontrol.Store.Keeps.Dispatch.{run-Preserves}
use flowcontrol.Store.Invariant.Ledger.{Remembers, Remembers-Preserves}
use flowcontrol.Store.Replay.{Recorded, Known, dispatch-replays}

-- The node is there, in the project, and the request has the key.
pub record Keyed (c : Conn) (scope key id : String) (meta : Option WriteMeta) : Type 0 where
  pub node : NodeRow
  pub found : node_at c.db.nodes id ≡ some node
  pub in_project : node.project_id ≡ scope
  pub has_key : idem_key meta ≡ some key

-- A write to a node of the project, or to an edge by its blocker, with the key.
abbrev pub Retried : Conn → String → String → Request → Type 0
Retried c scope key (update_node r) = Keyed c scope key r.node_id r.meta
Retried c scope key (delete_node r) = Keyed c scope key r.node_id r.meta
Retried c scope key (set_status r) = Keyed c scope key r.node_id r.meta
Retried c scope key (report_condition r) = Keyed c scope key r.node_id r.meta
Retried c scope key (set_verdict r) = Keyed c scope key r.node_id r.meta
Retried c scope key (add_comment r) = Keyed c scope key r.node_id r.meta
Retried c scope key (move_node r) = Keyed c scope key r.node_id r.meta
Retried c scope key (add_dependency r) = Keyed c scope key r.blocker_id r.meta
Retried c scope key (remove_dependency r) = Keyed c scope key r.blocker_id r.meta
Retried c scope key _ = ⊥

module _ (c : Conn) (scope key : String) (entry : IdempotencyRow)
    (h : ledger_at c.db scope key ≡ some entry) where
  Keyed-Recorded :
      (id : String) (meta : Option WriteMeta) → Keyed c scope key id meta → Recorded c entry id meta
  Keyed-Recorded id meta k = record {
    node = k.node;
    key = key;
    found = k.found;
    has_key = k.has_key;
    recorded = subst (λ p. ledger_at c.db p key ≡ some entry) (sym k.in_project) h;
  }

  Retried-Known : (req : Request) → Retried c scope key req → Known c entry req
  Retried-Known (update_node r) k = Keyed-Recorded r.node_id r.meta k
  Retried-Known (delete_node r) k = Keyed-Recorded r.node_id r.meta k
  Retried-Known (set_status r) k = Keyed-Recorded r.node_id r.meta k
  Retried-Known (report_condition r) k = Keyed-Recorded r.node_id r.meta k
  Retried-Known (set_verdict r) k = Keyed-Recorded r.node_id r.meta k
  Retried-Known (add_comment r) k = Keyed-Recorded r.node_id r.meta k
  Retried-Known (move_node r) k = Keyed-Recorded r.node_id r.meta k
  Retried-Known (add_dependency r) k = Keyed-Recorded r.blocker_id r.meta k
  Retried-Known (remove_dependency r) k = Keyed-Recorded r.blocker_id r.meta k
  Retried-Known _ k = absurd k

-- Once the ledger of a project holds a key, on a connection with no open transaction, a write with that
-- key to a node or an edge of the project is answered with the number that was recorded then and changes
-- nothing, whatever history of requests lies between.
pub run-Retried :
    (rs : List (Host × Request)) (c : Conn) (scope key : String) (entry : IdempotencyRow)
    (host : Host) (req : Request)
    → c.saved ≡ none
    → ledger_at c.db scope key ≡ some entry
    → Retried (run c rs) scope key req
    → dispatch host req (run c rs) ≡ done (mutation (empty_mutation entry.seq)) (run c rs)
run-Retried rs c scope key entry host req s h k =
    let kept = run-Preserves (Remembers-Preserves scope key entry) rs c (record {
      now = record { recorded = h };
      before = subst (Saved (Remembers scope key entry)) (sym s) tt;
    }) in
    dispatch-replays host (run c rs) entry req
      (Retried-Known (run c rs) scope key entry kept.now.recorded req k)
