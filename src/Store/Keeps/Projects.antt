-- ===== src/Store/Keeps/Projects.antt =====
-- Invariants over the operations on projects of flowcore/src/store.rs.
use flowcontrol.Common.{String, Option, none, some}
use flowcontrol.Schema.{Db, Host}
use flowcontrol.Message.{Project, CreateProjectRequest, UpdateProjectRequest, ArchiveProjectRequest}
use flowcontrol.Statement.{Session}
use flowcontrol.Store.Keeps.Operations.{each-Keeps}
use flowcontrol.Store.Keeps.{ByStatement, Keeps, Keeps-pure, Keeps-execute}
use flowcontrol.Store.Keeps.Helpers.{
  read_rules, record_idempotency_created-Keeps, fetch_project-Keeps,
}
use flowcontrol.Store.Reads.{IdemHit}
use flowcontrol.Store.Projects.{
  create_project_fresh, project_or, fetch_entity, replay_project, create_project_locked,
  update_project_field, update_project_fresh, update_project_locked, archive_project_locked,
}

module _ {P : Db → Type 0} (keep : ByStatement P) where
  create_project_fresh-Keeps :
      (host : Host) (req : CreateProjectRequest) → Keeps P (create_project_fresh host req)
  unfolding create_project_fresh
  create_project_fresh-Keeps host req =
      search (read_rules, Keeps-execute keep, record_idempotency_created-Keeps keep) depth 12

  fetch_entity-Keeps : (id : Option String) → Keeps P (fetch_entity id)
  fetch_entity-Keeps none = Keeps-pure none
  fetch_entity-Keeps (some id) = fetch_project-Keeps id

  replay_project-Keeps : (hit : Option IdemHit) → Keeps P (replay_project hit)
  unfolding replay_project
  replay_project-Keeps none = Keeps-pure none
  replay_project-Keeps (some hit) = fetch_entity-Keeps hit.entity_id

  project_or-Keeps :
      (found : Option Project) (m : Session Project) → Keeps P m → Keeps P (project_or found m)
  project_or-Keeps none m km = km
  project_or-Keeps (some p) m km = Keeps-pure p

  pub create_project-Keeps :
      (host : Host) (req : CreateProjectRequest) → Keeps P (create_project_locked host req)
  unfolding create_project_locked
  create_project-Keeps host req =
      search (read_rules, replay_project-Keeps, project_or-Keeps, create_project_fresh-Keeps) depth
        8

  update_project_field-Keeps :
      (host : Host) (req : UpdateProjectRequest) (f : String)
      → Keeps P (update_project_field host req f)
  unfolding update_project_field
  update_project_field-Keeps host req f = search (read_rules, Keeps-execute keep) depth 8

  update_project_fresh-Keeps :
      (host : Host) (req : UpdateProjectRequest) → Keeps P (update_project_fresh host req)
  unfolding update_project_fresh
  update_project_fresh-Keeps host req =
      search (read_rules, each-Keeps, update_project_field-Keeps, Keeps-execute keep) depth 10

  pub update_project-Keeps :
      (host : Host) (req : UpdateProjectRequest) → Keeps P (update_project_locked host req)
  unfolding update_project_locked
  update_project-Keeps host req = search (read_rules, update_project_fresh-Keeps) depth 8

  pub archive_project-Keeps :
      (host : Host) (req : ArchiveProjectRequest) → Keeps P (archive_project_locked host req)
  unfolding archive_project_locked
  archive_project-Keeps host req = search (read_rules, Keeps-execute keep) depth 10
