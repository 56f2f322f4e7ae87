-- ===== src/Store/Helpers.antt =====
-- flowcore/src/store.rs: the writing helpers of the operations, and the payload of a mutation.
use flowcontrol.Common.{
  ℤ, pos, true, false, String, Option, none, some, List, [], ◌∷◌, mem_str, last?,
}
use flowcontrol.Error.{from_db_message}
use flowcontrol.Schema.{Host}
use flowcontrol.Sql.{◌>>=◌, pure, raise, lift}
use flowcontrol.Message.{Event, Node, WriteMeta, Mutation}
use flowcontrol.Statement.{Session, execute, returning_event}
use flowcontrol.Statement.Syntax.{insert_or_ignore_key}
use flowcontrol.Statement.Nodes.{null_if_empty}
use flowcontrol.Store.Rows.{event_cells, proto_event}
use flowcontrol.Store.Reads.{fetch_node}
use flowcontrol.Store.Progress.{progress_for}

unfoldable pub author_of : Option WriteMeta → String
author_of none = ""
author_of (some m) = m.author

-- The idempotency key of a request's meta, or none when empty.
unfoldable pub idem_key : Option WriteMeta → Option String
idem_key none = none
idem_key (some m) = null_if_empty m.idempotency_key

-- `<prefix>-<unix-millis>-<8 hex>`, minted by the engine.
unfoldable pub new_id : Host → String → Session String
new_id host prefix = pure (host.mint prefix)

unfoldable pub append_event :
    Host → String → String → String → String → String → String → Session Event
unfolding returning_event event_cells proto_event
append_event host project node kind author summary payload = do
  row ← returning_event host (record {
    project_id = project;
    node_id = null_if_empty node;
    kind = kind;
    author = author;
    summary = summary;
    payload = payload;
  })
  lift (proto_event (event_cells row))

unfoldable pub record_idempotency : Host → String → Option String → ℤ → Session (Unit {0})
unfolding execute
record_idempotency host scope none seq = pure tt
record_idempotency host scope (some key) seq =
    execute host (insert_or_ignore_key scope key seq none)

unfoldable pub record_idempotency_created :
    Host → String → Option String → ℤ → String → Session (Unit {0})
unfolding execute
record_idempotency_created host scope none seq entity = pure tt
record_idempotency_created host scope (some key) seq entity =
    execute host (insert_or_ignore_key scope key seq (some entity))

abbrev pub last_seq_of : List Event → ℤ
last_seq_of events = elim (last? events) [ none ↦ pos 0 | some e ↦ e.seq ]

abbrev and_node : Option Node → List Node → List Node
and_node none ns = ns
and_node (some n) ns = n ∷ ns

-- The loop over the affected ids, with the set of those seen.
unfoldable pub changed_from : List String → List String → Session (List Node)
unfolding fetch_node
changed_from [] seen = pure []
changed_from (id ∷ ids) seen = elim (mem_str id seen) [
  | true ↦ changed_from ids seen
  | false ↦ do n ← fetch_node id; ns ← changed_from ids (id ∷ seen); pure (and_node n ns)
]

unfoldable pub finish_mutation : String → List Event → List String → Session Mutation
unfolding changed_from progress_for
finish_mutation project events affected = do
  nodes ← changed_from affected []
  progress ← progress_for project
  pure (record {
    events = events;
    changed_nodes = nodes;
    changed_progress = progress;
    seq = last_seq_of events;
  })

abbrev pub empty_mutation : ℤ → Mutation
empty_mutation seq = record { events = []; changed_nodes = []; changed_progress = []; seq = seq }

-- `.ok_or_else(|| DomainError::from_db_message(…))?`
abbrev pub require {ℓ} : {A : Type ℓ} → String → Option A → Session A
require message none = raise (from_db_message message)
require message (some a) = pure a

-- `if let Some(seq) = check_idempotency(…)? { return Ok(Self::empty_mutation(seq)) }`
abbrev pub unless_replayed : Option ℤ → Session Mutation → Session Mutation
unless_replayed (some seq) rest = pure (empty_mutation seq)
unless_replayed none rest = rest
