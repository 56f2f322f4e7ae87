-- ===== src/Store/Codec.antt =====
-- prost's part in `dispatch` of flowcore/src/store.rs: a request message from its bytes, and the bytes of a
-- response message. It is a third-party library, so both are parameters.
use flowcontrol.Common.{String, [], ◌∷◌, concat}
use flowcontrol.Error.{invalid_argument}
use flowcontrol.Sql.{raise}
use flowcontrol.Message.{
  CreateNodeRequest, UpdateNodeRequest, DeleteNodeRequest, SetStatusRequest, AddDependencyRequest,
  RemoveDependencyRequest, ReportConditionRequest, SetVerdictRequest, AddCommentRequest,
  UndoRequest, MoveNodeRequest, CreateProjectRequest, UpdateProjectRequest, ArchiveProjectRequest,
}
use flowcontrol.Message.Service.{
  ListProjectsRequest, GetSnapshotRequest, ListEventsRequest, SearchRequest, PollChangesRequest,
}
use flowcontrol.Statement.{Session}
use flowcontrol.Store.Responses.{Response}

-- The end of `T::decode`: a message, or prost's text for why there is none.
pub data Decoded (A : Type 0) : Type 0 where
  decoded : A → Decoded A
  refused : String → Decoded A

-- prost: `decode` at each request message, and `encode_to_vec` at each response message.
pub record Codec (Bytes : Type 0) : Type 0 where
  pub decode_list_projects : Bytes → Decoded ListProjectsRequest
  pub decode_get_snapshot : Bytes → Decoded GetSnapshotRequest
  pub decode_list_events : Bytes → Decoded ListEventsRequest
  pub decode_search_nodes : Bytes → Decoded SearchRequest
  pub decode_poll_changes : Bytes → Decoded PollChangesRequest
  pub decode_create_node : Bytes → Decoded CreateNodeRequest
  pub decode_update_node : Bytes → Decoded UpdateNodeRequest
  pub decode_delete_node : Bytes → Decoded DeleteNodeRequest
  pub decode_set_status : Bytes → Decoded SetStatusRequest
  pub decode_add_dependency : Bytes → Decoded AddDependencyRequest
  pub decode_remove_dependency : Bytes → Decoded RemoveDependencyRequest
  pub decode_report_condition : Bytes → Decoded ReportConditionRequest
  pub decode_set_verdict : Bytes → Decoded SetVerdictRequest
  pub decode_add_comment : Bytes → Decoded AddCommentRequest
  pub decode_undo : Bytes → Decoded UndoRequest
  pub decode_move_node : Bytes → Decoded MoveNodeRequest
  pub decode_create_project : Bytes → Decoded CreateProjectRequest
  pub decode_update_project : Bytes → Decoded UpdateProjectRequest
  pub decode_archive_project : Bytes → Decoded ArchiveProjectRequest
  pub encode : Response → Bytes

-- `decode(req)?`
abbrev pub decode {ℓ} : {A : Type 0} {B : Type ℓ} → Decoded A → (A → Session B) → Session B
decode (decoded a) f = f a
decode (refused text) f =
    raise (record { code = invalid_argument; message = concat ("bad request: " ∷ text ∷ []) })
