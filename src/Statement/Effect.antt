-- ===== src/Statement/Effect.antt =====
-- What each writing statement of flowcore/src/store.rs does to the database.
use flowcontrol.Common.{true, false, not, none, some, keep_if, update_if, option_map}
use flowcontrol.Error.{DResult, ok}
use flowcontrol.Schema.{NodeRow, Db, Host}
use flowcontrol.Schema.Checks.{node_at}
use flowcontrol.Statement.Syntax.{
  Statement, insert_node, insert_or_ignore_node, update_node, update_place, delete_node,
  insert_or_ignore_dependency, delete_dependency, upsert_agent, upsert_verdict, clear_verdict,
  delete_verification, insert_or_ignore_key, insert_project, update_project_name,
  update_project_description, touch_project, archive_project, unarchive_project,
}
use flowcontrol.Statement.Nodes.{
  node_of_values, insert_node_row, set_column, update_node_column, set_place, update_node_place,
  delete_node_row,
}
use flowcontrol.Statement.Edges.{
  insert_edge, delete_edge, of_node, upsert_verification, set_agent, set_human, insert_key,
}
use flowcontrol.Statement.Projects.{write_project, insert_project_row}

-- What the engine does with a statement.
unfoldable pub effect : Host → Statement → Db → DResult Db
effect host (insert_node v) d = insert_node_row false host (node_of_values host v) d
effect host (insert_or_ignore_node v) d = insert_node_row true host (node_of_values host v) d
effect host (update_node id c) d = update_node_column host id (set_column c) d
effect host (update_place parent kind at id) d =
    update_node_place host (set_place parent kind at) id d
effect host (delete_node id) d = ok (delete_node_row id d)
effect host (insert_or_ignore_dependency a b) d = insert_edge host a b d
effect host (delete_dependency a b) d = ok (delete_edge a b d)
effect host (upsert_agent id result name detail) d =
    let rev = option_map (λ (n : NodeRow). n.updated_at) (node_at d.nodes id) in
    upsert_verification host id (set_agent host rev result name detail) d
effect host (upsert_verdict id verdict) d =
    upsert_verification host id (set_human (some verdict) (some host.now)) d
effect host (clear_verdict id) d =
    ok (record d { verifications = update_if (of_node id) (set_human none none) d.verifications })
effect host (delete_verification id) d =
    ok (record d { verifications = keep_if (λ v. not (of_node id v)) d.verifications })
effect host (insert_or_ignore_key scope key seq entity) d =
    ok (insert_key host scope key seq entity d)
effect host (insert_project id name text) d = insert_project_row host id name text d
effect host (update_project_name id name) d =
    ok (write_project id (λ p. record p { name = name }) d)
effect host (update_project_description id text) d =
    ok (write_project id (λ p. record p { description = text }) d)
effect host (touch_project id) d = ok (write_project id (λ p. record p { updated_at = host.now }) d)
effect host (archive_project id) d =
    ok (write_project id (λ p. record p { archived_at = some host.now; updated_at = host.now }) d)
effect host (unarchive_project id) d =
    ok (write_project id (λ p. record p { archived_at = none; updated_at = host.now }) d)
