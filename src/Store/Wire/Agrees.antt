-- ===== src/Store/Wire/Agrees.antt =====
-- flowcore/src/store.rs: `dispatch` from bytes to bytes against its arms.
use flowcontrol.Common.{String, some, ◌≡◌}
use flowcontrol.Sql.{Outcome, done, fail}
use flowcontrol.Statement.{Conn}
use flowcontrol.Store.Codec.{Codec, decoded}
use flowcontrol.Store.Dispatch.{
  Request, Answer, list_projects, get_snapshot, list_events, search_nodes, poll_changes,
  create_node, update_node, delete_node, set_status, add_dependency, remove_dependency,
  report_condition, set_verdict, add_comment, undo, move_node, create_project, update_project,
  archive_project,
}
use flowcontrol.Store.Responses.{Response, content}

-- The method that takes a request.
unfoldable pub method_name : Request → String
method_name (list_projects archived) = "ListProjects"
method_name (get_snapshot id) = "GetSnapshot"
method_name (list_events id node before limit) = "ListEvents"
method_name (search_nodes id query limit) = "Search"
method_name (poll_changes id since limit) = "PollChanges"
method_name (create_node r) = "CreateNode"
method_name (update_node r) = "UpdateNode"
method_name (delete_node r) = "DeleteNode"
method_name (set_status r) = "SetStatus"
method_name (add_dependency r) = "AddDependency"
method_name (remove_dependency r) = "RemoveDependency"
method_name (report_condition r) = "ReportCondition"
method_name (set_verdict r) = "SetVerdict"
method_name (add_comment r) = "AddComment"
method_name (undo r) = "Undo"
method_name (move_node r) = "MoveNode"
method_name (create_project r) = "CreateProject"
method_name (update_project r) = "UpdateProject"
method_name (archive_project r) = "ArchiveProject"

-- The bytes are those of a request.
abbrev pub Decodes : {Bytes : Type 0} → Codec Bytes → Request → Bytes → Type 0
Decodes codec (list_projects archived) req =
    codec.decode_list_projects req ≡ decoded (record { include_archived = archived })
Decodes codec (get_snapshot id) req =
    codec.decode_get_snapshot req ≡ decoded (record { project_id = id })
Decodes codec (list_events id node before limit) req =
    codec.decode_list_events req
    ≡ decoded (record { project_id = id; node_id = node; before_seq = before; limit = limit })
Decodes codec (search_nodes id query limit) req =
    codec.decode_search_nodes req
    ≡ decoded (record { project_id = id; query = query; limit = limit })
Decodes codec (poll_changes id since limit) req =
    codec.decode_poll_changes req
    ≡ decoded (record { project_id = id; after_seq = since; limit = limit })
Decodes codec (create_node r) req = codec.decode_create_node req ≡ decoded r
Decodes codec (update_node r) req = codec.decode_update_node req ≡ decoded r
Decodes codec (delete_node r) req = codec.decode_delete_node req ≡ decoded r
Decodes codec (set_status r) req = codec.decode_set_status req ≡ decoded r
Decodes codec (add_dependency r) req = codec.decode_add_dependency req ≡ decoded r
Decodes codec (remove_dependency r) req = codec.decode_remove_dependency req ≡ decoded r
Decodes codec (report_condition r) req = codec.decode_report_condition req ≡ decoded r
Decodes codec (set_verdict r) req = codec.decode_set_verdict req ≡ decoded r
Decodes codec (add_comment r) req = codec.decode_add_comment req ≡ decoded r
Decodes codec (undo r) req = codec.decode_undo req ≡ decoded r
Decodes codec (move_node r) req = codec.decode_move_node req ≡ decoded r
Decodes codec (create_project r) req = codec.decode_create_project req ≡ decoded r
Decodes codec (update_project r) req = codec.decode_update_project req ≡ decoded r
Decodes codec (archive_project r) req = codec.decode_archive_project req ≡ decoded r

-- The bytes of an outcome are the encoding of a response with the answer, and the errors are the same.
abbrev pub Encodes :
    {Bytes : Type 0} → Codec Bytes → Outcome Conn Bytes → Outcome Conn Answer → Type 0
Encodes codec (done b c) (done a c') =
    ((r : Response) × (b ≡ codec.encode r) × (content r ≡ some a)) × (c ≡ c')
Encodes codec (fail e c) (fail e' c') = (e ≡ e') × (c ≡ c')
Encodes codec _ _ = ⊥
