-- ===== src/Store/Edges/Cycles.antt =====
-- flowcore/src/store.rs: what add_dependency_locked does with an edge that the trigger
-- dependencies_no_cycle refuses.
use flowcontrol.Common.{String, none, ◌≡◌, refl}
use flowcontrol.Error.{DomainError, failed_precondition, from_db_message, classify, err}
use flowcontrol.Schema.{Db, Host}
use flowcontrol.Schema.Cycle.Reachable.{Reach, closes_cycle_iff}
use flowcontrol.Sql.{fail, transaction}
use flowcontrol.Message.{AddDependencyRequest}
use flowcontrol.Statement.{execute}
use flowcontrol.Statement.Edges.{insert_edge}
use flowcontrol.Statement.Effect.{effect}
use flowcontrol.Store.Helpers.{idem_key}
use flowcontrol.Store.Reads.{project_of, check_idempotency}
use flowcontrol.Store.Edges.{add_fresh, add_dependency_locked}

abbrev pub cycle_error : DomainError
cycle_error = record { code = failed_precondition; message = "dependency would create a cycle" }

from_db_message-cycle : from_db_message "dependency would create a cycle" ≡ cycle_error
unfolding from_db_message classify
from_db_message-cycle = refl

insert_edge-cycle :
    (host : Host) (a b : String) (d : Db)
    → Reach d.dependencies b a
    → insert_edge host a b d ≡ err cycle_error
unfolding insert_edge
insert_edge-cycle host a b d r =
    rw ((closes_cycle_iff d.dependencies a b).1 r, from_db_message-cycle) refl

-- When a walk along the dependencies leads from the blocked node to the blocker, and the request has
-- no key, add_dependency_locked fails with FAILED_PRECONDITION and leaves the session as it was.
pub add_dependency-cycle :
    (host : Host) (req : AddDependencyRequest) (d : Db)
    → idem_key req.meta ≡ none
    → Reach d.dependencies req.blocked_id req.blocker_id
    → add_dependency_locked host req (record { db = d; saved = none })
      ≡ fail cycle_error (record { db = d; saved = none })
unfolding add_dependency_locked project_of check_idempotency add_fresh transaction execute effect
add_dependency-cycle host req d k r =
    rw (k, insert_edge-cycle host req.blocker_id req.blocked_id d r) refl
