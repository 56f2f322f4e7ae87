-- ===== src/Store/Moves.antt =====
-- flowcore/src/store.rs: move_node_locked.
use flowcontrol.Common.{
  ℤ, pos, Bool, true, false, ◌&&◌, ◌||◌, not, String, Option, none, some, List, [], ◌∷◌, ◌++◌, ◌==◌,
  if◌then◌else◌, concat, keep_if, map, eqb_ℤ, ltb_ℤ, ◌+ℤ◌, wrap_i32,
}
use flowcontrol.Error.{from_db_message}
use flowcontrol.Schema.{Host, Db, NodeRow}
use flowcontrol.Schema.Checks.{has_parent}
use flowcontrol.Sql.{◌>>=◌, ◌>>◌, pure, raise, transaction}
use flowcontrol.Message.{Event, Node, Mutation, MoveNodeRequest}
use flowcontrol.Statement.{Session, execute, engine, reads}
use flowcontrol.Statement.Syntax.{delete_node, delete_verification, update_place}
use flowcontrol.Store.Values.{kind_str}
use flowcontrol.Store.Payload.{place_json, moved_json}
use flowcontrol.Store.Delete.{log_drop}
use flowcontrol.Store.Reads.{fetch_node, check_idempotency, downstream_of}
use flowcontrol.Store.Helpers.{
  author_of, idem_key, append_event, record_idempotency, finish_mutation, require, unless_replayed,
  last_seq_of,
}

-- SELECT id FROM nodes WHERE parent_id = ?1
unfoldable pub child_ids : Db → String → List String
unfolding has_parent
child_ids d id = map (λ (n : NodeRow). n.id) (keep_if (has_parent id) d.nodes)

abbrev pub max_ℤ : ℤ → ℤ → ℤ
max_ℤ a b = if ltb_ℤ a b then b else a

-- MAX(position) over the rows, NULL for no row.
abbrev max_position : List NodeRow → Option ℤ
max_position [] = none
max_position (n ∷ ns) = elim (max_position ns) [
  | none ↦ some n.position
  | some m ↦ some (max_ℤ n.position m)
]

abbrev or_zero : Option ℤ → ℤ
or_zero none = pos 0
or_zero (some p) = p

-- SELECT COALESCE(MAX(position), 0) + 100 FROM nodes WHERE parent_id = ?1
unfoldable pub next_position : Db → String → ℤ
unfolding has_parent ◌+ℤ◌
next_position d parent = or_zero (max_position (keep_if (has_parent parent) d.nodes)) +ℤ pos 100

-- One step child of a demoted task: its dependents, collected before it is deleted, and the event.
unfoldable pub drop_child : Host → String → String → String → Session (List String × Event)
unfolding downstream_of execute log_drop
drop_child host project author id = do
  deps ← downstream_of id
  execute host (delete_node id)
  event ← log_drop host project author id
  pure (deps, event)

unfoldable pub drop_children :
    Host → String → String → List String → Session (List String × List Event)
unfolding drop_child
drop_children host project author [] = pure ([], [])
drop_children host project author (id ∷ ids) = do
  one ← drop_child host project author id
  rest ← drop_children host project author ids
  pure (one.0 ++ rest.0, one.1 ∷ rest.1)

unfoldable pub drop_if_demoted :
    Host → MoveNodeRequest → Node → Bool → Session (List String × List Event)
unfolding child_ids drop_children author_of
drop_if_demoted host req current false = pure ([], [])
drop_if_demoted host req current true = do
  ids ← reads (λ d. child_ids d req.node_id)
  drop_children host current.project_id (author_of req.meta) ids

-- A kind change invalidates the verification.
unfoldable pub clear_if : Host → String → Bool → Session (Unit {0})
unfolding execute
clear_if host id false = pure tt
clear_if host id true = execute host (delete_verification id)

unfoldable pub move_fresh : Host → MoveNodeRequest → Node → Session Mutation
unfolding drop_if_demoted clear_if next_position execute kind_str author_of idem_key append_event
    record_idempotency finish_mutation transaction
move_fresh host req current = do
  (events, affected) ← transaction (engine host) do
    dropped ←
        drop_if_demoted host req current (eqb_ℤ current.kind (pos 2) && eqb_ℤ req.kind (pos 3))
    clear_if host req.node_id (not (eqb_ℤ current.kind req.kind))
    at ← reads (λ d. next_position d req.parent_id)
    execute host (update_place req.parent_id (kind_str req.kind) (wrap_i32 at) req.node_id)
    event ←
        append_event host current.project_id req.node_id "NODE_UPDATED" (author_of req.meta)
          (concat ("moved " ∷ req.node_id ∷ []))
          (host.to_string (
            moved_json (place_json current.parent_id (kind_str current.kind))
              (place_json req.parent_id (kind_str req.kind))))
    let events = dropped.1 ++ event ∷ []
    record_idempotency host current.project_id (idem_key req.meta) (last_seq_of events)
    pure (events, req.node_id ∷ dropped.0)
  finish_mutation current.project_id events affected

-- The tests of the request, in their order.
unfoldable pub move_refused : MoveNodeRequest → Node → Option String
move_refused req current =
    if eqb_ℤ req.kind (pos 0)
    then some "move requires a target kind"
    else if eqb_ℤ current.kind (pos 1) || eqb_ℤ req.kind (pos 1)
    then some "move cannot promote or demote a work package"
    else if req.parent_id == req.node_id
    then some "a node cannot be its own parent"
    else none

abbrev pub unless_refused : Option String → Session Mutation → Session Mutation
unless_refused none rest = rest
unless_refused (some message) rest = raise (from_db_message message)

unfoldable pub move_node_locked : Host → MoveNodeRequest → Session Mutation
unfolding fetch_node check_idempotency idem_key move_refused move_fresh
move_node_locked host req = do
  found ← fetch_node req.node_id
  current ← require "node not found" found
  hit ← check_idempotency current.project_id (idem_key req.meta)
  unless_replayed hit (unless_refused (move_refused req current) (move_fresh host req current))
