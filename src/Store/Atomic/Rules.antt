-- ===== src/Store/Atomic/Rules.antt =====
-- The rules that take an operation of flowcore/src/store.rs apart: its reads, the body of its
-- transaction and its end.
use flowcontrol.Common.{ap, ℤ, String, Option, none, some}
use flowcontrol.Schema.{Host}
use flowcontrol.Statement.{execute}
use flowcontrol.Statement.Syntax.{Statement}
use flowcontrol.Store.Helpers.{append_event, record_idempotency, record_idempotency_created}
use flowcontrol.Store.Atomic.{
  Atomic, Quiet, Quiet-Atomic, Quiet-pure, Quiet-raise, Quiet-reads, Quiet-lift, Quiet-require,
  Atomic-if, Atomic-read, Atomic-commit, Atomic-raise, unless_replayed-Atomic, finish_mutation-Sure,
}
use flowcontrol.Store.Keeps.{Keeps, Keeps-execute, after}
use flowcontrol.Store.Keeps.Helpers.{
  read_rules, append_event-Keeps, record_idempotency-Keeps, record_idempotency_created-Keeps,
}
use flowcontrol.Store.Invariant.Rows.{IsSound, Sound-Preserves}
use flowcontrol.Store.Reads.{
  fetch_node, project_of, downstream_of, check_idempotency, check_idempotency_created,
}
use flowcontrol.Store.Reads.Faithful.{fetch_node_lem}

pub fetch_node-Quiet : (id : String) → Quiet (fetch_node id)
fetch_node-Quiet id = record { at = λ c. ap after (fetch_node_lem id c) }

pub project_of-Quiet : (id : String) → Quiet (project_of id)
unfolding project_of
project_of-Quiet id = Quiet-reads _

pub downstream_of-Quiet : (id : String) → Quiet (downstream_of id)
unfolding downstream_of
downstream_of-Quiet id = Quiet-reads _

pub check_idempotency-Quiet :
    (scope : String) (key : Option String) → Quiet (check_idempotency scope key)
unfolding check_idempotency
check_idempotency-Quiet scope none = Quiet-pure none
check_idempotency-Quiet scope (some key) = Quiet-reads _

pub check_idempotency_created-Quiet :
    (scope : String) (key : Option String) → Quiet (check_idempotency_created scope key)
unfolding check_idempotency_created
check_idempotency_created-Quiet scope none = Quiet-pure none
check_idempotency_created-Quiet scope (some key) = Quiet-reads _

pub ruleset atomic_rules = (
  Atomic-read, Atomic-commit, Atomic-raise, Atomic-if, Quiet-reads, Quiet-lift, Quiet-require,
  fetch_node-Quiet, project_of-Quiet, downstream_of-Quiet, check_idempotency-Quiet,
  check_idempotency_created-Quiet, unless_replayed-Atomic, finish_mutation-Sure,
)

pub execute-Keeps : (host : Host) (st : Statement) → Keeps IsSound (execute host st)
execute-Keeps = Keeps-execute Sound-Preserves.by_statement

pub event-Keeps :
    (host : Host) (project node kind author summary payload : String)
    → Keeps IsSound (append_event host project node kind author summary payload)
event-Keeps = append_event-Keeps Sound-Preserves

pub key-Keeps :
    (host : Host) (scope : String) (key : Option String) (seq : ℤ)
    → Keeps IsSound (record_idempotency host scope key seq)
key-Keeps = record_idempotency-Keeps Sound-Preserves.by_statement

pub created-Keeps :
    (host : Host) (scope : String) (key : Option String) (seq : ℤ) (entity : String)
    → Keeps IsSound (record_idempotency_created host scope key seq entity)
created-Keeps = record_idempotency_created-Keeps Sound-Preserves.by_statement

pub ruleset body_rules = (read_rules, execute-Keeps, event-Keeps, key-Keeps, created-Keeps)
