-- ===== src/Store/Wire.antt =====
-- flowcore/src/store.rs: `dispatch` by the name of the method, from bytes to bytes. Decoding and encoding
-- a message is prost's, a parameter.
pub mod Agrees
use flowcontrol.Common.{String, some, [], ◌∷◌, ◌==◌, if◌then◌else◌, concat}
use flowcontrol.Error.{DomainError, not_found, invalid_argument}
use flowcontrol.Schema.{Host}
use flowcontrol.Sql.{◌>>=◌, pure, raise}
use flowcontrol.Message.{
  CreateNodeRequest, UpdateNodeRequest, DeleteNodeRequest, SetStatusRequest, AddDependencyRequest,
  RemoveDependencyRequest, ReportConditionRequest, SetVerdictRequest, AddCommentRequest,
  UndoRequest, MoveNodeRequest, CreateProjectRequest, UpdateProjectRequest, ArchiveProjectRequest,
}
use flowcontrol.Message.Service.{
  ListProjectsRequest, GetSnapshotRequest, ListEventsRequest, SearchRequest, PollChangesRequest,
}
use flowcontrol.Statement.{Session}
use flowcontrol.Store.Codec.{Codec, decode}
use flowcontrol.Store.Responses.{
  Response, projects_listed, snapshot_taken, events_listed, nodes_found, changes_polled,
  node_created, node_updated, node_deleted, status_set, dependency_added, dependency_removed,
  condition_reported, verdict_set, comment_added, undone, node_moved, project_created,
  project_updated, project_archived,
}
use flowcontrol.Store.Nodes.{create_node_locked, update_node_locked}
use flowcontrol.Store.Delete.{delete_node_locked, set_status_locked}
use flowcontrol.Store.Edges.{add_dependency_locked, remove_dependency_locked}
use flowcontrol.Store.Reports.{report_condition_locked, set_verdict_locked, add_comment_locked}
use flowcontrol.Store.Moves.{move_node_locked}
use flowcontrol.Store.Undo.{undo_locked}
use flowcontrol.Store.Projects.{
  create_project_locked, update_project_locked, archive_project_locked,
}
use flowcontrol.Store.Queries.{
  list_projects_locked, get_snapshot_locked, list_events_locked, search_locked, poll_changes_locked,
}

-- The operation of an arm, and its response.
abbrev pub respond :
    {A Bytes : Type 0} → (Response → Bytes) → (A → Response) → Session A → Session Bytes
respond encode f m = do a ← m; pure (encode (f a))

module _ {Bytes : Type 0} (codec : Codec Bytes) where
  open codec use {encode}

  unfoldable pub list_projects_arm : Host → Bytes → Session Bytes
  unfolding list_projects_locked
  list_projects_arm host req = decode (codec.decode_list_projects req) (λ r.
      respond encode (λ x. projects_listed (record { projects = x }))
        (list_projects_locked r.include_archived))

  unfoldable pub get_snapshot_arm : Host → Bytes → Session Bytes
  unfolding get_snapshot_locked
  get_snapshot_arm host req =
      decode (codec.decode_get_snapshot req)
        (λ r. respond encode (λ x. snapshot_taken x) (get_snapshot_locked r.project_id))

  unfoldable pub list_events_arm : Host → Bytes → Session Bytes
  unfolding list_events_locked
  list_events_arm host req = decode (codec.decode_list_events req) (λ r.
      respond encode (λ x. events_listed (record { events = x.0; has_more = x.1 }))
        (list_events_locked r.project_id r.node_id r.before_seq r.limit))

  unfoldable pub search_nodes_arm : Host → Bytes → Session Bytes
  unfolding search_locked
  search_nodes_arm host req = decode (codec.decode_search_nodes req) (λ r.
      respond encode (λ x. nodes_found (record { nodes = x }))
        (search_locked host r.project_id r.query r.limit))

  unfoldable pub poll_changes_arm : Host → Bytes → Session Bytes
  unfolding poll_changes_locked
  poll_changes_arm host req = decode (codec.decode_poll_changes req) (λ r.
      respond encode (λ x. changes_polled x) (poll_changes_locked r.project_id r.after_seq r.limit))

  unfoldable pub create_node_arm : Host → Bytes → Session Bytes
  unfolding create_node_locked
  create_node_arm host req = decode (codec.decode_create_node req) (λ r.
      respond encode (λ x. node_created (record { mutation = some x })) (create_node_locked host r))

  unfoldable pub update_node_arm : Host → Bytes → Session Bytes
  unfolding update_node_locked
  update_node_arm host req = decode (codec.decode_update_node req) (λ r.
      respond encode (λ x. node_updated (record { mutation = some x })) (update_node_locked host r))

  unfoldable pub delete_node_arm : Host → Bytes → Session Bytes
  unfolding delete_node_locked
  delete_node_arm host req = decode (codec.decode_delete_node req) (λ r.
      respond encode (λ x. node_deleted (record { mutation = some x })) (delete_node_locked host r))

  unfoldable pub set_status_arm : Host → Bytes → Session Bytes
  unfolding set_status_locked
  set_status_arm host req = decode (codec.decode_set_status req) (λ r.
      respond encode (λ x. status_set (record { mutation = some x })) (set_status_locked host r))

  unfoldable pub add_dependency_arm : Host → Bytes → Session Bytes
  unfolding add_dependency_locked
  add_dependency_arm host req = decode (codec.decode_add_dependency req) (λ r.
      respond encode (λ x. dependency_added (record { mutation = some x }))
        (add_dependency_locked host r))

  unfoldable pub remove_dependency_arm : Host → Bytes → Session Bytes
  unfolding remove_dependency_locked
  remove_dependency_arm host req = decode (codec.decode_remove_dependency req) (λ r.
      respond encode (λ x. dependency_removed (record { mutation = some x }))
        (remove_dependency_locked host r))

  unfoldable pub report_condition_arm : Host → Bytes → Session Bytes
  unfolding report_condition_locked
  report_condition_arm host req = decode (codec.decode_report_condition req) (λ r.
      respond encode (λ x. condition_reported (record { mutation = some x }))
        (report_condition_locked host r))

  unfoldable pub set_verdict_arm : Host → Bytes → Session Bytes
  unfolding set_verdict_locked
  set_verdict_arm host req = decode (codec.decode_set_verdict req) (λ r.
      respond encode (λ x. verdict_set (record { mutation = some x })) (set_verdict_locked host r))

  unfoldable pub add_comment_arm : Host → Bytes → Session Bytes
  unfolding add_comment_locked
  add_comment_arm host req = decode (codec.decode_add_comment req) (λ r.
      respond encode (λ x. comment_added (record { mutation = some x }))
        (add_comment_locked host r))

  unfoldable pub undo_arm : Host → Bytes → Session Bytes
  unfolding undo_locked
  undo_arm host req =
      decode (codec.decode_undo req)
        (λ r. respond encode (λ x. undone (record { mutation = some x })) (undo_locked host r))

  unfoldable pub move_node_arm : Host → Bytes → Session Bytes
  unfolding move_node_locked
  move_node_arm host req = decode (codec.decode_move_node req) (λ r.
      respond encode (λ x. node_moved (record { mutation = some x })) (move_node_locked host r))

  unfoldable pub create_project_arm : Host → Bytes → Session Bytes
  unfolding create_project_locked
  create_project_arm host req = decode (codec.decode_create_project req) (λ r.
      respond encode (λ x. project_created (record { project = some x }))
        (create_project_locked host r))

  unfoldable pub update_project_arm : Host → Bytes → Session Bytes
  unfolding update_project_locked
  update_project_arm host req = decode (codec.decode_update_project req) (λ r.
      respond encode (λ x. project_updated (record { project = some x }))
        (update_project_locked host r))

  unfoldable pub archive_project_arm : Host → Bytes → Session Bytes
  unfolding archive_project_locked
  archive_project_arm host req = decode (codec.decode_archive_project req) (λ r.
      respond encode (λ x. project_archived (record { project = some x }))
        (archive_project_locked host r))

  unfoldable pub dispatch_bytes : Host → String → Bytes → Session Bytes
  unfolding list_projects_arm get_snapshot_arm list_events_arm search_nodes_arm poll_changes_arm
      create_node_arm update_node_arm delete_node_arm set_status_arm add_dependency_arm
      remove_dependency_arm report_condition_arm set_verdict_arm add_comment_arm undo_arm
      move_node_arm create_project_arm update_project_arm archive_project_arm
  dispatch_bytes host name req =
      if name == "ListProjects"
      then list_projects_arm host req
      else if name == "GetSnapshot"
      then get_snapshot_arm host req
      else if name == "ListEvents"
      then list_events_arm host req
      else if name == "Search"
      then search_nodes_arm host req
      else if name == "PollChanges"
      then poll_changes_arm host req
      else if name == "CreateNode"
      then create_node_arm host req
      else if name == "UpdateNode"
      then update_node_arm host req
      else if name == "DeleteNode"
      then delete_node_arm host req
      else if name == "SetStatus"
      then set_status_arm host req
      else if name == "AddDependency"
      then add_dependency_arm host req
      else if name == "RemoveDependency"
      then remove_dependency_arm host req
      else if name == "ReportCondition"
      then report_condition_arm host req
      else if name == "SetVerdict"
      then set_verdict_arm host req
      else if name == "AddComment"
      then add_comment_arm host req
      else if name == "Undo"
      then undo_arm host req
      else if name == "MoveNode"
      then move_node_arm host req
      else if name == "CreateProject"
      then create_project_arm host req
      else if name == "UpdateProject"
      then update_project_arm host req
      else if name == "ArchiveProject"
      then archive_project_arm host req
      else raise (record { code = not_found; message = concat ("unknown method: " ∷ name ∷ []) })
