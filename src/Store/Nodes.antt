-- ===== src/Store/Nodes.antt =====
-- flowcore/src/store.rs: create_node_locked and update_node_locked.
use flowcontrol.Common.{
  ℤ, pos, Bool, true, false, String, Option, none, some, List, [], ◌∷◌, ◌==◌, if◌then◌else◌, eqb_ℤ,
  concat,
}
use flowcontrol.Error.{from_db_message}
use flowcontrol.Schema.{Host}
use flowcontrol.Sql.{◌>>=◌, ◌>>◌, pure, raise, transaction}
use flowcontrol.Message.{Node, Mutation, CreateNodeRequest, UpdateNodeRequest}
use flowcontrol.Statement.{Session, execute, engine}
use flowcontrol.Statement.Syntax.{
  insert_node, update_node, title, description, condition, reference, note, position, wp_state,
}
use flowcontrol.Store.Values.{kind_str, wp_str}
use flowcontrol.Store.Reads.{fetch_node, check_idempotency, check_idempotency_created, IdemHit}
use flowcontrol.Store.Payload.{created_json}
use flowcontrol.Store.Helpers.{
  author_of, idem_key, new_id, append_event, record_idempotency, record_idempotency_created,
  finish_mutation, empty_mutation, require, unless_replayed,
}

-- A create that was recorded returns the node that it minted, if that is still there.
abbrev pub replay_node : ℤ → Option Node → Mutation
replay_node seq none = empty_mutation seq
replay_node seq (some n) = record {
  events = [];
  changed_nodes = n ∷ [];
  changed_progress = [];
  seq = seq;
}

unfoldable pub replay_create : ℤ → Option String → Session Mutation
unfolding fetch_node
replay_create seq none = pure (empty_mutation seq)
replay_create seq (some id) = do n ← fetch_node id; pure (replay_node seq n)

unfoldable pub create_fresh : Host → CreateNodeRequest → Session Mutation
unfolding author_of idem_key new_id execute append_event record_idempotency_created finish_mutation
    kind_str transaction
create_fresh host req = do
  (event, id) ← transaction (engine host) do
    id ← new_id host "node"
    execute host (
        insert_node (record {
          id = id;
          project_id = req.project_id;
          parent_id = req.parent_id;
          kind = kind_str req.kind;
          title = req.title;
          description = req.description;
          condition = req.condition;
          note = req.note;
          reference = req.reference;
          declared_status = "OPEN";
          wp_state = if eqb_ℤ req.kind (pos 1) then some "PLANNED" else none;
          position = req.position;
        }))
    event ←
        append_event host req.project_id id "NODE_CREATED" (author_of req.meta)
          (concat ("created " ∷ id ∷ [])) (host.to_string (created_json id req.title))
    record_idempotency_created host req.project_id (idem_key req.meta) event.seq id
    pure (event, id)
  finish_mutation req.project_id (event ∷ []) (id ∷ [])

unfoldable pub create_or_replay : Host → CreateNodeRequest → Option IdemHit → Session Mutation
unfolding create_fresh replay_create
create_or_replay host req (some hit) = replay_create hit.seq hit.entity_id
create_or_replay host req none = create_fresh host req

unfoldable pub create_node_locked : Host → CreateNodeRequest → Session Mutation
unfolding check_idempotency_created create_or_replay idem_key
create_node_locked host req = do
  hit ← check_idempotency_created req.project_id (idem_key req.meta)
  create_or_replay host req hit

-- One field of the update mask.
unfoldable pub update_field : Host → UpdateNodeRequest → String → Session (Unit {0})
unfolding execute wp_str
update_field host req f =
    if f == "title"
    then execute host (update_node req.node_id (title req.title))
    else if f == "description"
    then execute host (update_node req.node_id (description req.description))
    else if f == "condition"
    then execute host (update_node req.node_id (condition req.condition))
    else if f == "position"
    then execute host (update_node req.node_id (position req.position))
    else if f == "reference"
    then execute host (update_node req.node_id (reference req.reference))
    else if f == "note"
    then execute host (update_node req.node_id (note req.note))
    else if f == "wp_state"
    then execute host (update_node req.node_id (wp_state (wp_str req.wp_state)))
    else raise (from_db_message (concat ("unknown update_mask field: " ∷ f ∷ [])))

unfoldable pub each {ℓ} : {A : Type ℓ} → (A → Session (Unit {0})) → List A → Session (Unit {0})
each f [] = pure tt
each f (a ∷ l) = do f a; each f l

unfoldable pub is_empty_mask : List String → Bool
is_empty_mask [] = true
is_empty_mask (f ∷ fs) = false

unfoldable pub update_fresh : Host → UpdateNodeRequest → String → Session Mutation
unfolding is_empty_mask each update_field author_of idem_key append_event record_idempotency
    finish_mutation transaction
update_fresh host req project =
    if is_empty_mask req.update_mask
    then raise (from_db_message "update_mask cannot be empty")
    else do
      event ← transaction (engine host) do
        each (update_field host req) req.update_mask
        event ←
            append_event host project req.node_id "NODE_UPDATED" (author_of req.meta)
              (concat ("updated " ∷ req.node_id ∷ [])) "{}"
        record_idempotency host project (idem_key req.meta) event.seq
        pure event
      finish_mutation project (event ∷ []) (req.node_id ∷ [])

unfoldable pub update_node_locked : Host → UpdateNodeRequest → Session Mutation
unfolding fetch_node check_idempotency idem_key update_fresh
update_node_locked host req = do
  found ← fetch_node req.node_id
  current ← require "node not found" found
  hit ← check_idempotency current.project_id (idem_key req.meta)
  unless_replayed hit (update_fresh host req current.project_id)
