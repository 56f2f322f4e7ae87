-- ===== src/Store/Edges.antt =====
-- flowcore/src/store.rs: add_dependency_locked and remove_dependency_locked.
pub mod Cycles
use flowcontrol.Common.{String, [], ◌∷◌, concat}
use flowcontrol.Schema.{Host}
use flowcontrol.Sql.{◌>>=◌, ◌>>◌, pure, transaction}
use flowcontrol.Message.{Mutation, AddDependencyRequest, RemoveDependencyRequest}
use flowcontrol.Statement.{Session, execute, engine}
use flowcontrol.Statement.Syntax.{insert_or_ignore_dependency, delete_dependency}
use flowcontrol.Store.Payload.{edge_json}
use flowcontrol.Store.Reads.{project_of, check_idempotency}
use flowcontrol.Store.Helpers.{
  author_of, idem_key, append_event, record_idempotency, finish_mutation, unless_replayed,
}

unfoldable pub add_fresh : Host → AddDependencyRequest → String → Session Mutation
unfolding execute author_of idem_key append_event record_idempotency finish_mutation transaction
add_fresh host req project = do
  event ← transaction (engine host) do
    execute host (insert_or_ignore_dependency req.blocker_id req.blocked_id)
    event ←
        append_event host project "" "DEP_ADDED" (author_of req.meta)
          (concat (req.blocker_id ∷ " blocks " ∷ req.blocked_id ∷ []))
          (host.to_string (edge_json req.blocker_id req.blocked_id))
    record_idempotency host project (idem_key req.meta) event.seq
    pure event
  finish_mutation project (event ∷ []) (req.blocked_id ∷ [])

unfoldable pub add_dependency_locked : Host → AddDependencyRequest → Session Mutation
unfolding project_of check_idempotency idem_key add_fresh
add_dependency_locked host req = do
  project ← project_of req.blocker_id
  hit ← check_idempotency project (idem_key req.meta)
  unless_replayed hit (add_fresh host req project)

unfoldable pub remove_fresh : Host → RemoveDependencyRequest → String → Session Mutation
unfolding execute author_of idem_key append_event record_idempotency finish_mutation transaction
remove_fresh host req project = do
  event ← transaction (engine host) do
    execute host (delete_dependency req.blocker_id req.blocked_id)
    event ←
        append_event host project "" "DEP_REMOVED" (author_of req.meta)
          (concat (req.blocker_id ∷ " no longer blocks " ∷ req.blocked_id ∷ []))
          (host.to_string (edge_json req.blocker_id req.blocked_id))
    record_idempotency host project (idem_key req.meta) event.seq
    pure event
  finish_mutation project (event ∷ []) (req.blocked_id ∷ [])

unfoldable pub remove_dependency_locked : Host → RemoveDependencyRequest → Session Mutation
unfolding project_of check_idempotency idem_key remove_fresh
remove_dependency_locked host req = do
  project ← project_of req.blocker_id
  hit ← check_idempotency project (idem_key req.meta)
  unless_replayed hit (remove_fresh host req project)
