-- ===== src/Store/Responses.antt =====
-- The response messages of the unary methods, one case for each, and the answer that each holds.
use flowcontrol.Common.{Option, some, option_map}
use flowcontrol.Message.{GetSnapshotResponse, PollChangesResponse}
use flowcontrol.Message.Service.{
  ListProjectsResponse, ListEventsResponse, SearchResponse, CreateNodeResponse, UpdateNodeResponse,
  DeleteNodeResponse, SetStatusResponse, AddDependencyResponse, RemoveDependencyResponse,
  ReportConditionResponse, SetVerdictResponse, AddCommentResponse, UndoResponse, MoveNodeResponse,
  CreateProjectResponse, UpdateProjectResponse, ArchiveProjectResponse,
}
use flowcontrol.Store.Dispatch.{
  Answer, projects, snapshot, events, nodes, changes, mutation, project,
}

pub data Response : Type 0 where
  projects_listed : ListProjectsResponse → Response
  snapshot_taken : GetSnapshotResponse → Response
  events_listed : ListEventsResponse → Response
  nodes_found : SearchResponse → Response
  changes_polled : PollChangesResponse → Response
  node_created : CreateNodeResponse → Response
  node_updated : UpdateNodeResponse → Response
  node_deleted : DeleteNodeResponse → Response
  status_set : SetStatusResponse → Response
  dependency_added : AddDependencyResponse → Response
  dependency_removed : RemoveDependencyResponse → Response
  condition_reported : ReportConditionResponse → Response
  verdict_set : SetVerdictResponse → Response
  comment_added : AddCommentResponse → Response
  undone : UndoResponse → Response
  node_moved : MoveNodeResponse → Response
  project_created : CreateProjectResponse → Response
  project_updated : UpdateProjectResponse → Response
  project_archived : ArchiveProjectResponse → Response

-- What a response tells, if it has its message.
abbrev pub content : Response → Option Answer
content (projects_listed r) = some (projects r.projects)
content (snapshot_taken r) = some (snapshot r)
content (events_listed r) = some (events r.events r.has_more)
content (nodes_found r) = some (nodes r.nodes)
content (changes_polled r) = some (changes r)
content (node_created r) = option_map mutation r.mutation
content (node_updated r) = option_map mutation r.mutation
content (node_deleted r) = option_map mutation r.mutation
content (status_set r) = option_map mutation r.mutation
content (dependency_added r) = option_map mutation r.mutation
content (dependency_removed r) = option_map mutation r.mutation
content (condition_reported r) = option_map mutation r.mutation
content (verdict_set r) = option_map mutation r.mutation
content (comment_added r) = option_map mutation r.mutation
content (undone r) = option_map mutation r.mutation
content (node_moved r) = option_map mutation r.mutation
content (project_created r) = option_map project r.project
content (project_updated r) = option_map project r.project
content (project_archived r) = option_map project r.project
