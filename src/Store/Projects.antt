-- ===== src/Store/Projects.antt =====
-- flowcore/src/store.rs: create_project_locked, update_project_locked and archive_project_locked.
use flowcontrol.Common.{pos, String, Option, none, some, [], ◌∷◌, ◌==◌, if◌then◌else◌, concat}
use flowcontrol.Error.{from_db_message}
use flowcontrol.Schema.{Host}
use flowcontrol.Sql.{◌>>=◌, ◌>>◌, pure, raise, transaction}
use flowcontrol.Message.{Project, CreateProjectRequest, UpdateProjectRequest, ArchiveProjectRequest}
use flowcontrol.Statement.{Session, execute, engine}
use flowcontrol.Statement.Syntax.{
  Statement, insert_project, update_project_name, update_project_description, touch_project,
  archive_project, unarchive_project,
}
use flowcontrol.Store.Reads.{fetch_project, check_idempotency_created, IdemHit}
use flowcontrol.Store.Helpers.{idem_key, new_id, record_idempotency_created, require}
use flowcontrol.Store.Nodes.{each, is_empty_mask}

unfoldable pub create_project_fresh : Host → CreateProjectRequest → Session Project
unfolding new_id execute idem_key record_idempotency_created fetch_project transaction
create_project_fresh host req = do
  id ← transaction (engine host) do
    id ← new_id host "prj"
    execute host (insert_project id req.name req.description)
    record_idempotency_created host "" (idem_key req.meta) (pos 0) id
    pure id
  found ← fetch_project id
  require "created project not found" found

-- A recorded create returns the row that it made, if that is still there.
abbrev pub project_or : Option Project → Session Project → Session Project
project_or (some p) rest = pure p
project_or none rest = rest

abbrev pub fetch_entity : Option String → Session (Option Project)
fetch_entity none = pure none
fetch_entity (some id) = fetch_project id

unfoldable pub replay_project : Option IdemHit → Session (Option Project)
unfolding fetch_project
replay_project none = pure none
replay_project (some hit) = fetch_entity hit.entity_id

unfoldable pub create_project_locked : Host → CreateProjectRequest → Session Project
unfolding check_idempotency_created idem_key replay_project create_project_fresh
create_project_locked host req = do
  hit ← check_idempotency_created "" (idem_key req.meta)
  found ← replay_project hit
  project_or found (create_project_fresh host req)

unfoldable pub update_project_field : Host → UpdateProjectRequest → String → Session (Unit {0})
unfolding execute
update_project_field host req f =
    if f == "name"
    then execute host (update_project_name req.project_id req.name)
    else if f == "description"
    then execute host (update_project_description req.project_id req.description)
    else raise (from_db_message (concat ("unknown update_mask field: " ∷ f ∷ [])))

unfoldable pub update_project_fresh : Host → UpdateProjectRequest → Session Project
unfolding is_empty_mask each update_project_field execute fetch_project transaction
update_project_fresh host req =
    if is_empty_mask req.update_mask
    then raise (from_db_message "update_mask cannot be empty")
    else do
      transaction (engine host) do
        each (update_project_field host req) req.update_mask
        execute host (touch_project req.project_id)
      found ← fetch_project req.project_id
      require "project not found" found

unfoldable pub update_project_locked : Host → UpdateProjectRequest → Session Project
unfolding fetch_project update_project_fresh
update_project_locked host req = do
  found ← fetch_project req.project_id
  require "project not found" found
  update_project_fresh host req

unfoldable pub archive_statement : ArchiveProjectRequest → Statement
archive_statement req =
    if req.archived then archive_project req.project_id else unarchive_project req.project_id

unfoldable pub archive_project_locked : Host → ArchiveProjectRequest → Session Project
unfolding fetch_project archive_statement execute transaction
archive_project_locked host req = do
  found ← fetch_project req.project_id
  require "project not found" found
  transaction (engine host) (execute host (archive_statement req))
  again ← fetch_project req.project_id
  require "project not found" again
