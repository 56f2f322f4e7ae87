-- ===== src/Native/Methods.antt =====
-- flowd/src/store/mod.rs: `impl Store for NativeStore`, one function for each method. A read is
-- offloaded, a write is offloaded and then published, and the writes to projects are not published.
use flowcontrol.Common.{ℤ, Bool, String, List}
use flowcontrol.Error.{DResult}
use flowcontrol.Schema.{Host}
use flowcontrol.Message.{
  Project, Node, Event, Mutation, GetSnapshotResponse, PollChangesResponse, CreateNodeRequest,
  UpdateNodeRequest, DeleteNodeRequest, SetStatusRequest, AddDependencyRequest,
  RemoveDependencyRequest, ReportConditionRequest, SetVerdictRequest, AddCommentRequest,
  UndoRequest, MoveNodeRequest, CreateProjectRequest, UpdateProjectRequest, ArchiveProjectRequest,
}
use flowcontrol.Native.{NativeStore, Fate, offload, write_pub}
use flowcontrol.Store.Nodes.{create_node_locked, update_node_locked}
use flowcontrol.Store.Delete.{delete_node_locked, set_status_locked}
use flowcontrol.Store.Edges.{add_dependency_locked, remove_dependency_locked}
use flowcontrol.Store.Reports.{report_condition_locked, set_verdict_locked, add_comment_locked}
use flowcontrol.Store.Moves.{move_node_locked}
use flowcontrol.Store.Undo.{undo_locked}
use flowcontrol.Store.Projects.{
  create_project_locked, update_project_locked, archive_project_locked,
}
use flowcontrol.Store.Queries.{
  list_projects_locked, get_snapshot_locked, list_events_locked, search_locked, poll_changes_locked,
  events_after_locked,
}

-- A method: the end of its task and the store on which it is called, to its result and the store
-- that it leaves.
abbrev pub Method : Type 0 → Type 0
Method A = Fate → NativeStore → DResult A × NativeStore

unfoldable pub list_projects : Bool → Method (List Project)
unfolding offload
list_projects archived fate s = offload fate (list_projects_locked archived) s

unfoldable pub get_snapshot : String → Method GetSnapshotResponse
unfolding offload
get_snapshot id fate s = offload fate (get_snapshot_locked id) s

unfoldable pub events_after : String → ℤ → Method (List Event)
unfolding offload
events_after id from_seq fate s = offload fate (events_after_locked id from_seq) s

unfoldable pub poll_changes : String → ℤ → ℤ → Method PollChangesResponse
unfolding offload
poll_changes id after_seq limit fate s = offload fate (poll_changes_locked id after_seq limit) s

unfoldable pub list_events : String → String → ℤ → ℤ → Method (List Event × Bool)
unfolding offload
list_events id node before_seq limit fate s =
    offload fate (list_events_locked id node before_seq limit) s

unfoldable pub search_nodes : Host → String → String → ℤ → Method (List Node)
unfolding offload
search_nodes host id query limit fate s = offload fate (search_locked host id query limit) s

unfoldable pub create_node : Host → CreateNodeRequest → Method Mutation
unfolding write_pub
create_node host req fate s = write_pub fate (create_node_locked host req) s

unfoldable pub update_node : Host → UpdateNodeRequest → Method Mutation
unfolding write_pub
update_node host req fate s = write_pub fate (update_node_locked host req) s

unfoldable pub delete_node : Host → DeleteNodeRequest → Method Mutation
unfolding write_pub
delete_node host req fate s = write_pub fate (delete_node_locked host req) s

unfoldable pub set_status : Host → SetStatusRequest → Method Mutation
unfolding write_pub
set_status host req fate s = write_pub fate (set_status_locked host req) s

unfoldable pub add_dependency : Host → AddDependencyRequest → Method Mutation
unfolding write_pub
add_dependency host req fate s = write_pub fate (add_dependency_locked host req) s

unfoldable pub remove_dependency : Host → RemoveDependencyRequest → Method Mutation
unfolding write_pub
remove_dependency host req fate s = write_pub fate (remove_dependency_locked host req) s

unfoldable pub report_condition : Host → ReportConditionRequest → Method Mutation
unfolding write_pub
report_condition host req fate s = write_pub fate (report_condition_locked host req) s

unfoldable pub set_verdict : Host → SetVerdictRequest → Method Mutation
unfolding write_pub
set_verdict host req fate s = write_pub fate (set_verdict_locked host req) s

unfoldable pub add_comment : Host → AddCommentRequest → Method Mutation
unfolding write_pub
add_comment host req fate s = write_pub fate (add_comment_locked host req) s

unfoldable pub undo : Host → UndoRequest → Method Mutation
unfolding write_pub
undo host req fate s = write_pub fate (undo_locked host req) s

unfoldable pub move_node : Host → MoveNodeRequest → Method Mutation
unfolding write_pub
move_node host req fate s = write_pub fate (move_node_locked host req) s

unfoldable pub create_project : Host → CreateProjectRequest → Method Project
unfolding offload
create_project host req fate s = offload fate (create_project_locked host req) s

unfoldable pub update_project : Host → UpdateProjectRequest → Method Project
unfolding offload
update_project host req fate s = offload fate (update_project_locked host req) s

unfoldable pub archive_project : Host → ArchiveProjectRequest → Method Project
unfolding offload
archive_project host req fate s = offload fate (archive_project_locked host req) s
