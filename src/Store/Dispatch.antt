-- ===== src/Store/Dispatch.antt =====
-- flowcore/src/store.rs: `dispatch`, one arm for each method. The protobuf bytes on either side are
-- prost's: a request stands for its decoded message, an answer for the message before it is encoded.
use flowcontrol.Common.{ℤ, Bool, String, List, [], ◌∷◌}
use flowcontrol.Schema.{Host}
use flowcontrol.Sql.{◌>>=◌, pure}
use flowcontrol.Message.{
  Project, Node, Event, Mutation, GetSnapshotResponse, PollChangesResponse, CreateNodeRequest,
  UpdateNodeRequest, DeleteNodeRequest, SetStatusRequest, AddDependencyRequest,
  RemoveDependencyRequest, ReportConditionRequest, SetVerdictRequest, AddCommentRequest,
  UndoRequest, MoveNodeRequest, CreateProjectRequest, UpdateProjectRequest, ArchiveProjectRequest,
}
use flowcontrol.Statement.{Conn, Session}
use flowcontrol.Store.Keeps.{after}
use flowcontrol.Store.Nodes.{create_node_locked, update_node_locked}
use flowcontrol.Store.Delete.{delete_node_locked, set_status_locked}
use flowcontrol.Store.Edges.{add_dependency_locked, remove_dependency_locked}
use flowcontrol.Store.Reports.{report_condition_locked, set_verdict_locked, add_comment_locked}
use flowcontrol.Store.Moves.{move_node_locked}
use flowcontrol.Store.Undo.{undo_locked}
use flowcontrol.Store.Projects.{
  create_project_locked, update_project_locked, archive_project_locked,
}
use flowcontrol.Store.Queries.{
  list_projects_locked, get_snapshot_locked, list_events_locked, search_locked, poll_changes_locked,
}

pub data Request : Type 0 where
  list_projects : Bool → Request
  get_snapshot : String → Request
  list_events : String → String → ℤ → ℤ → Request
  search_nodes : String → String → ℤ → Request
  poll_changes : String → ℤ → ℤ → Request
  create_node : CreateNodeRequest → Request
  update_node : UpdateNodeRequest → Request
  delete_node : DeleteNodeRequest → Request
  set_status : SetStatusRequest → Request
  add_dependency : AddDependencyRequest → Request
  remove_dependency : RemoveDependencyRequest → Request
  report_condition : ReportConditionRequest → Request
  set_verdict : SetVerdictRequest → Request
  add_comment : AddCommentRequest → Request
  undo : UndoRequest → Request
  move_node : MoveNodeRequest → Request
  create_project : CreateProjectRequest → Request
  update_project : UpdateProjectRequest → Request
  archive_project : ArchiveProjectRequest → Request

pub data Answer : Type 0 where
  projects : List Project → Answer
  snapshot : GetSnapshotResponse → Answer
  events : List Event → Bool → Answer
  nodes : List Node → Answer
  changes : PollChangesResponse → Answer
  mutation : Mutation → Answer
  project : Project → Answer

abbrev pub answer_as {ℓ} : {A : Type ℓ} → (A → Answer) → Session A → Session Answer
answer_as f m = do a ← m; pure (f a)

unfoldable pub dispatch : Host → Request → Session Answer
dispatch host (list_projects archived) = answer_as projects (list_projects_locked archived)
dispatch host (get_snapshot id) = answer_as snapshot (get_snapshot_locked id)
dispatch host (list_events id node before limit) =
    answer_as (λ r. events r.0 r.1) (list_events_locked id node before limit)
dispatch host (search_nodes id query limit) = answer_as nodes (search_locked host id query limit)
dispatch host (poll_changes id since limit) = answer_as changes (poll_changes_locked id since limit)
dispatch host (create_node r) = answer_as mutation (create_node_locked host r)
dispatch host (update_node r) = answer_as mutation (update_node_locked host r)
dispatch host (delete_node r) = answer_as mutation (delete_node_locked host r)
dispatch host (set_status r) = answer_as mutation (set_status_locked host r)
dispatch host (add_dependency r) = answer_as mutation (add_dependency_locked host r)
dispatch host (remove_dependency r) = answer_as mutation (remove_dependency_locked host r)
dispatch host (report_condition r) = answer_as mutation (report_condition_locked host r)
dispatch host (set_verdict r) = answer_as mutation (set_verdict_locked host r)
dispatch host (add_comment r) = answer_as mutation (add_comment_locked host r)
dispatch host (undo r) = answer_as mutation (undo_locked host r)
dispatch host (move_node r) = answer_as mutation (move_node_locked host r)
dispatch host (create_project r) = answer_as project (create_project_locked host r)
dispatch host (update_project r) = answer_as project (update_project_locked host r)
dispatch host (archive_project r) = answer_as project (archive_project_locked host r)

-- One request on a session of the connection, as it leaves the connection.
unfoldable pub serve : Conn → Host × Request → Conn
serve c (host, request) = after (dispatch host request c)

-- A history of requests, each with what the host supplied then.
unfoldable pub run : Conn → List (Host × Request) → Conn
run c [] = c
run c (r ∷ rs) = run (serve c r) rs
