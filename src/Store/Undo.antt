-- ===== src/Store/Undo.antt =====
-- flowcore/src/store.rs: undo_locked. `Inverse` is what one of its arms leaves: the ids whose nodes
-- the answer carries, and the event that records the reversal.
use flowcontrol.Common.{
  ℤ, pos, ◌&&◌, String, Option, some, List, [], ◌∷◌, ◌==◌, if◌then◌else◌, concat, keep_if, find,
  last?, option_map, eqb_ℤ, ltb_ℤ, unwrap_or,
}
use flowcontrol.Error.{from_db_message}
use flowcontrol.Json.{Json}
use flowcontrol.Schema.{Host, Db, EventRow}
use flowcontrol.Sql.{◌>>=◌, ◌>>◌, pure, raise, lift, transaction}
use flowcontrol.Message.{Event, Mutation, UndoRequest}
use flowcontrol.Statement.{Session, execute, engine, reads}
use flowcontrol.Statement.Syntax.{
  update_node, delete_node, insert_or_ignore_node, insert_or_ignore_dependency, delete_dependency,
  declared_status,
}
use flowcontrol.Store.Rows.{event_cells, proto_event}
use flowcontrol.Store.Payload.{payload_get, restored_values, opt_get}
use flowcontrol.Store.Reads.{check_idempotency, downstream_of, transpose}
use flowcontrol.Store.Helpers.{
  author_of, idem_key, append_event, record_idempotency, finish_mutation, require, unless_replayed,
}

-- SELECT … FROM events WHERE project_id = ?1 AND seq = ?2, or ORDER BY seq DESC LIMIT 1. The rows
-- stand in the order of `seq`, the table's key.
unfoldable pub event_to_undo : Db → UndoRequest → Option EventRow
event_to_undo d req =
    if ltb_ℤ (pos 0) req.seq
    then find (λ (e : EventRow). e.project_id == req.project_id && eqb_ℤ (pos e.seq) req.seq)
        d.events
    else last? (keep_if (λ (e : EventRow). e.project_id == req.project_id) d.events)

pub record Inverse : Type 0 where
  pub affected : List String
  pub kind : String
  pub summary : String
  pub node : String

unfoldable pub undo_status : Host → Event → Session Inverse
unfolding payload_get execute downstream_of
undo_status host event = do
  let before = unwrap_or (payload_get host event.payload_json "before") "OPEN"
  execute host (update_node event.node_id (declared_status before))
  affected ← downstream_of event.node_id
  pure (record {
    affected = affected;
    kind = "STATUS_SET";
    summary = concat ("undid status set on " ∷ event.node_id ∷ []);
    node = event.node_id;
  })

unfoldable pub undo_dep_added : Host → Event → Session Inverse
unfolding payload_get execute
undo_dep_added host event = do
  blocker ← require "dep payload missing blocker" (payload_get host event.payload_json "blocker_id")
  blocked ← require "dep payload missing blocked" (payload_get host event.payload_json "blocked_id")
  execute host (delete_dependency blocker blocked)
  pure (record {
    affected = blocked ∷ [];
    kind = "DEP_REMOVED";
    summary = concat ("undid: " ∷ blocker ∷ " no longer blocks " ∷ blocked ∷ []);
    node = event.node_id;
  })

unfoldable pub undo_dep_removed : Host → Event → Session Inverse
unfolding payload_get execute
undo_dep_removed host event = do
  blocker ← require "dep payload missing blocker" (payload_get host event.payload_json "blocker_id")
  blocked ← require "dep payload missing blocked" (payload_get host event.payload_json "blocked_id")
  execute host (insert_or_ignore_dependency blocker blocked)
  pure (record {
    affected = blocked ∷ [];
    kind = "DEP_ADDED";
    summary = concat ("undid: " ∷ blocker ∷ " blocks " ∷ blocked ∷ []);
    node = event.node_id;
  })

unfoldable pub undo_created : Host → Event → Session Inverse
unfolding execute
undo_created host event = do
  execute host (delete_node event.node_id)
  pure (record {
    affected = [];
    kind = "NODE_DELETED";
    summary = concat ("undid creation of " ∷ event.node_id ∷ []);
    node = "";
  })

-- Insert a node again from the `before` object of a delete.
unfoldable pub restore_node : Host → Json → Session (Unit {0})
unfolding execute restored_values
restore_node host obj = execute host (insert_or_ignore_node (restored_values obj))

unfoldable pub undo_deleted : Host → Event → Session Inverse
unfolding restore_node downstream_of
undo_deleted host event = do
  before ← require "cannot undo delete: payload missing" (host.from_str event.payload_json)
  obj ← require "cannot undo delete: payload missing" (opt_get (some before) "before")
  restore_node host obj
  affected ← downstream_of event.node_id
  pure (record {
    affected = affected;
    kind = "NODE_CREATED";
    summary = concat ("undid deletion of " ∷ event.node_id ∷ []);
    node = event.node_id;
  })

-- The number of an event kind that has no inverse, as it is printed.
unfoldable pub kind_text : ℤ → String
kind_text k =
    if eqb_ℤ k (pos 2)
    then "2"
    else if eqb_ℤ k (pos 7)
    then "7"
    else if eqb_ℤ k (pos 8)
    then "8"
    else if eqb_ℤ k (pos 9)
    then "9"
    else "0"

-- The match on the event's kind.
unfoldable pub undo_step : Host → Event → Session Inverse
unfolding undo_status undo_dep_added undo_dep_removed undo_created undo_deleted kind_text
undo_step host event =
    if eqb_ℤ event.kind (pos 4)
    then undo_status host event
    else if eqb_ℤ event.kind (pos 5)
    then undo_dep_added host event
    else if eqb_ℤ event.kind (pos 6)
    then undo_dep_removed host event
    else if eqb_ℤ event.kind (pos 1)
    then undo_created host event
    else if eqb_ℤ event.kind (pos 3)
    then undo_deleted host event
    else raise (from_db_message (concat ("cannot undo event kind " ∷ kind_text event.kind ∷ [])))

unfoldable pub undo_fresh : Host → UndoRequest → Event → Session Mutation
unfolding undo_step author_of idem_key append_event record_idempotency finish_mutation transaction
undo_fresh host req event = do
  (inverse, affected) ← transaction (engine host) do
    inv ← undo_step host event
    inverse ←
        append_event host event.project_id inv.node inv.kind (author_of req.meta) inv.summary "{}"
    record_idempotency host event.project_id (idem_key req.meta) inverse.seq
    pure (inverse, inv.affected)
  finish_mutation event.project_id (inverse ∷ []) affected

unfoldable pub undo_locked : Host → UndoRequest → Session Mutation
unfolding event_to_undo event_cells proto_event check_idempotency idem_key undo_fresh
undo_locked host req = do
  row ← reads (λ d. option_map event_cells (event_to_undo d req))
  found ← lift (transpose proto_event row)
  event ← require "no event to undo" found
  hit ← check_idempotency event.project_id (idem_key req.meta)
  unless_replayed hit (undo_fresh host req event)
