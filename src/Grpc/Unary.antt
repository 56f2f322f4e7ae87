-- ===== src/Grpc/Unary.antt =====
-- flowd/src/grpc/mod.rs: the unary methods of the service, one function for each.
use flowcontrol.Common.{some}
use flowcontrol.Error.{DResult, ok, err}
use flowcontrol.Schema.{Host}
use flowcontrol.Message.{
  GetSnapshotResponse, PollChangesResponse, CreateNodeRequest, UpdateNodeRequest, DeleteNodeRequest,
  SetStatusRequest, AddDependencyRequest, RemoveDependencyRequest, ReportConditionRequest,
  SetVerdictRequest, AddCommentRequest, UndoRequest, MoveNodeRequest, CreateProjectRequest,
  UpdateProjectRequest, ArchiveProjectRequest,
}
use flowcontrol.Message.Service.{
  ListProjectsRequest, ListProjectsResponse, GetSnapshotRequest, ListEventsRequest,
  ListEventsResponse, SearchRequest, SearchResponse, PollChangesRequest, CreateNodeResponse,
  UpdateNodeResponse, DeleteNodeResponse, SetStatusResponse, AddDependencyResponse,
  RemoveDependencyResponse, ReportConditionResponse, SetVerdictResponse, AddCommentResponse,
  UndoResponse, MoveNodeResponse, CreateProjectResponse, UpdateProjectResponse,
  ArchiveProjectResponse,
}
use flowcontrol.Native.{NativeStore, Fate}
use flowcontrol.Native.Methods
use flowcontrol.Native.Methods.{Method}
use flowcontrol.Grpc.{Reply, response, status, into_status}

-- A handler over the store: the reply, and the store that it leaves.
abbrev pub Handler : Type 0 → Type 0
Handler A = Fate → NativeStore → Reply A × NativeStore

-- `.map(…).map_err(into_status)` and the like.
abbrev pub reply_of : {A B : Type 0} → (A → B) → DResult A → Reply B
reply_of f (ok a) = response (f a)
reply_of f (err e) = status (into_status e)

unfoldable pub replying : {A B : Type 0} → (A → B) → Method A → Handler B
unfolding into_status
replying f m fate s = let (r, s') = m fate s in (reply_of f r, s')

unfoldable pub list_projects : ListProjectsRequest → Handler ListProjectsResponse
unfolding replying Methods.list_projects
list_projects req =
    replying (λ l. record { projects = l }) (Methods.list_projects req.include_archived)

unfoldable pub get_snapshot : GetSnapshotRequest → Handler GetSnapshotResponse
unfolding replying Methods.get_snapshot
get_snapshot req = replying (λ r. r) (Methods.get_snapshot req.project_id)

unfoldable pub list_events : ListEventsRequest → Handler ListEventsResponse
unfolding replying Methods.list_events
list_events req =
    replying (λ r. record { events = r.0; has_more = r.1 })
      (Methods.list_events req.project_id req.node_id req.before_seq req.limit)

unfoldable pub search_nodes : Host → SearchRequest → Handler SearchResponse
unfolding replying Methods.search_nodes
search_nodes host req =
    replying (λ l. record { nodes = l })
      (Methods.search_nodes host req.project_id req.query req.limit)

unfoldable pub poll_changes : PollChangesRequest → Handler PollChangesResponse
unfolding replying Methods.poll_changes
poll_changes req = replying (λ r. r) (Methods.poll_changes req.project_id req.after_seq req.limit)

unfoldable pub create_node : Host → CreateNodeRequest → Handler CreateNodeResponse
unfolding replying Methods.create_node
create_node host req = replying (λ m. record { mutation = some m }) (Methods.create_node host req)

unfoldable pub update_node : Host → UpdateNodeRequest → Handler UpdateNodeResponse
unfolding replying Methods.update_node
update_node host req = replying (λ m. record { mutation = some m }) (Methods.update_node host req)

unfoldable pub delete_node : Host → DeleteNodeRequest → Handler DeleteNodeResponse
unfolding replying Methods.delete_node
delete_node host req = replying (λ m. record { mutation = some m }) (Methods.delete_node host req)

unfoldable pub set_status : Host → SetStatusRequest → Handler SetStatusResponse
unfolding replying Methods.set_status
set_status host req = replying (λ m. record { mutation = some m }) (Methods.set_status host req)

unfoldable pub add_dependency : Host → AddDependencyRequest → Handler AddDependencyResponse
unfolding replying Methods.add_dependency
add_dependency host req =
    replying (λ m. record { mutation = some m }) (Methods.add_dependency host req)

unfoldable pub remove_dependency : Host → RemoveDependencyRequest → Handler RemoveDependencyResponse
unfolding replying Methods.remove_dependency
remove_dependency host req =
    replying (λ m. record { mutation = some m }) (Methods.remove_dependency host req)

unfoldable pub report_condition : Host → ReportConditionRequest → Handler ReportConditionResponse
unfolding replying Methods.report_condition
report_condition host req =
    replying (λ m. record { mutation = some m }) (Methods.report_condition host req)

unfoldable pub set_verdict : Host → SetVerdictRequest → Handler SetVerdictResponse
unfolding replying Methods.set_verdict
set_verdict host req = replying (λ m. record { mutation = some m }) (Methods.set_verdict host req)

unfoldable pub add_comment : Host → AddCommentRequest → Handler AddCommentResponse
unfolding replying Methods.add_comment
add_comment host req = replying (λ m. record { mutation = some m }) (Methods.add_comment host req)

unfoldable pub undo : Host → UndoRequest → Handler UndoResponse
unfolding replying Methods.undo
undo host req = replying (λ m. record { mutation = some m }) (Methods.undo host req)

unfoldable pub move_node : Host → MoveNodeRequest → Handler MoveNodeResponse
unfolding replying Methods.move_node
move_node host req = replying (λ m. record { mutation = some m }) (Methods.move_node host req)

unfoldable pub create_project : Host → CreateProjectRequest → Handler CreateProjectResponse
unfolding replying Methods.create_project
create_project host req =
    replying (λ p. record { project = some p }) (Methods.create_project host req)

unfoldable pub update_project : Host → UpdateProjectRequest → Handler UpdateProjectResponse
unfolding replying Methods.update_project
update_project host req =
    replying (λ p. record { project = some p }) (Methods.update_project host req)

unfoldable pub archive_project : Host → ArchiveProjectRequest → Handler ArchiveProjectResponse
unfolding replying Methods.archive_project
archive_project host req =
    replying (λ p. record { project = some p }) (Methods.archive_project host req)
