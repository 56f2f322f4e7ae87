-- ===== src/Statement/Projects.antt =====
-- The statements on the table `projects`.
use flowcontrol.Common.{String, none, [], ◌∷◌, ◌++◌, ◌==◌, if◌then◌else◌, update_if, is_some}
use flowcontrol.Error.{DResult, ok, err}
use flowcontrol.Schema.{ProjectRow, Db, Host, primary_key}
use flowcontrol.Schema.Checks.{project_at}
use flowcontrol.Statement.Nodes.{violated}

abbrev pub write_project : String → (ProjectRow → ProjectRow) → Db → Db
write_project id f d = record d {
  projects = update_if (λ (p : ProjectRow). p.id == id) f d.projects;
}

unfoldable pub insert_project_row : Host → String → String → String → Db → DResult Db
unfolding project_at
insert_project_row host id name text d =
    if is_some (project_at d.projects id)
    then err (violated host primary_key "projects")
    else ok (record d {
      projects =
          d.projects
          ++ record {
            id = id;
            name = name;
            description = text;
            archived_at = none;
            created_at = host.now;
            updated_at = host.now;
          }
            ∷ [];
    })
