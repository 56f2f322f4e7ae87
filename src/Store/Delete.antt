-- ===== src/Store/Delete.antt =====
-- flowcore/src/store.rs: delete_node_locked and set_status_locked.
pub mod Dependents
use flowcontrol.Common.{
  Bool, ◌&&◌, ◌||◌, not, String, List, [], ◌∷◌, ◌++◌, ◌==◌, if◌then◌else◌, concat, any, mem_str,
  length,
}
use flowcontrol.Error.{from_db_message}
use flowcontrol.Schema.{Host, Db, DependencyRow}
use flowcontrol.Schema.Cascade.{subtree, below}
use flowcontrol.Sql.{◌>>=◌, ◌>>◌, pure, raise, transaction}
use flowcontrol.Message.{Event, Node, Mutation, DeleteNodeRequest, SetStatusRequest}
use flowcontrol.Statement.{Session, execute, engine, reads}
use flowcontrol.Statement.Syntax.{update_node, delete_node, declared_status}
use flowcontrol.Store.Values.{declared_str}
use flowcontrol.Store.Payload.{dropped_json, status_json, node_before_json}
use flowcontrol.Store.Reads.{fetch_node, check_idempotency, downstream_of}
use flowcontrol.Store.Helpers.{
  author_of, idem_key, append_event, record_idempotency, finish_mutation, require, unless_replayed,
  last_seq_of,
}

-- SELECT count(*) FROM dependencies WHERE blocker_id = ?1 OR blocked_id = ?1, as a test.
unfoldable pub is_referenced : Db → String → Bool
is_referenced d id =
    any (λ (e : DependencyRow). e.blocker_id == id || e.blocked_id == id) d.dependencies

-- SELECT DISTINCT
unfoldable pub distinct : List String → List String → List String
distinct seen [] = []
distinct seen (s ∷ l) =
    let fresh = s ∷ distinct (s ∷ seen) l in
    let rest = distinct seen l in if mem_str s seen then rest else fresh

abbrev pub blocked_outside : List String → List DependencyRow → List String
blocked_outside ids [] = []
blocked_outside ids (e ∷ es) =
    let rest = blocked_outside ids es in
    if mem_str e.blocker_id ids && not (mem_str e.blocked_id ids) then e.blocked_id ∷ rest else rest

-- The nodes outside the subtree that a node of it blocks.
unfoldable pub external_dependents : Db → String → List String
unfolding distinct subtree
external_dependents d id = distinct [] (blocked_outside (subtree d.nodes id) d.dependencies)

-- SELECT id FROM subtree WHERE id <> ?1
unfoldable pub descendants : Db → String → List String
unfolding below
descendants d id = below (length d.nodes) d.nodes (id ∷ [])

-- The delete event of a node that goes with another.
unfoldable pub log_drop : Host → String → String → String → Session Event
unfolding append_event
log_drop host project author id =
    append_event host project "" "NODE_DELETED" author (concat ("deleted " ∷ id ∷ []))
      (host.to_string (dropped_json id))

-- The loop that logs a delete of each descendant.
unfoldable pub log_dropped : Host → String → String → List String → Session (List Event)
unfolding log_drop
log_dropped host project author [] = pure []
log_dropped host project author (id ∷ ids) = do
  event ← log_drop host project author id
  events ← log_dropped host project author ids
  pure (event ∷ events)

unfoldable pub delete_fresh : Host → DeleteNodeRequest → Node → Session Mutation
unfolding external_dependents descendants execute author_of idem_key append_event log_dropped
    record_idempotency finish_mutation node_before_json transaction
delete_fresh host req current = do
  dependents ← reads (λ d. external_dependents d req.node_id)
  below ← reads (λ d. descendants d req.node_id)
  events ← transaction (engine host) do
    execute host (delete_node req.node_id)
    dropped ← log_dropped host current.project_id (author_of req.meta) below
    event ←
        append_event host current.project_id "" "NODE_DELETED" (author_of req.meta)
          (concat ("deleted " ∷ req.node_id ∷ [])) (node_before_json host current)
    let events = dropped ++ event ∷ []
    record_idempotency host current.project_id (idem_key req.meta) (last_seq_of events)
    pure events
  finish_mutation current.project_id events dependents

-- The count of `fail_if_referenced`, then the rest.
unfoldable pub delete_checked : Host → DeleteNodeRequest → Node → Session Mutation
unfolding is_referenced delete_fresh
delete_checked host req current = do
  referenced ← reads (λ d. is_referenced d req.node_id)
  if req.fail_if_referenced && referenced
      then raise (from_db_message "node has dependents")
      else delete_fresh host req current

unfoldable pub delete_node_locked : Host → DeleteNodeRequest → Session Mutation
unfolding fetch_node check_idempotency idem_key delete_checked
delete_node_locked host req = do
  found ← fetch_node req.node_id
  current ← require "node not found" found
  hit ← check_idempotency current.project_id (idem_key req.meta)
  unless_replayed hit (delete_checked host req current)

unfoldable pub set_status_fresh : Host → SetStatusRequest → Node → Session Mutation
unfolding declared_str downstream_of execute author_of idem_key append_event record_idempotency
    finish_mutation transaction
set_status_fresh host req current = do
  let before = declared_str current.declared_status
  let new = declared_str req.declared_status
  dependents ← downstream_of req.node_id
  event ← transaction (engine host) do
    execute host (update_node req.node_id (declared_status new))
    event ←
        append_event host current.project_id req.node_id "STATUS_SET" (author_of req.meta)
          (concat (req.node_id ∷ " -> " ∷ new ∷ [])) (host.to_string (status_json before new))
    record_idempotency host current.project_id (idem_key req.meta) event.seq
    pure event
  finish_mutation current.project_id (event ∷ []) (req.node_id ∷ dependents)

unfoldable pub set_status_locked : Host → SetStatusRequest → Session Mutation
unfolding fetch_node check_idempotency idem_key set_status_fresh
set_status_locked host req = do
  found ← fetch_node req.node_id
  current ← require "node not found" found
  hit ← check_idempotency current.project_id (idem_key req.meta)
  unless_replayed hit (set_status_fresh host req current)
