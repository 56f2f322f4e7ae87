-- ===== src/Message.antt =====
-- flowcore/src/generated/flow.v1.rs: the messages of proto/flow/v1/flow.proto that the store reads
-- and returns. An i32 or i64 is an integer; an enumeration is the i32 that the message carries.
pub mod Service
use flowcontrol.Common.{ℤ, Bool, String, Option, List}

pub record Project : Type 0 where
  pub id : String
  pub name : String
  pub description : String
  pub created_at : ℤ
  pub archived_at : ℤ

pub record Verification : Type 0 where
  pub agent_result : ℤ
  pub agent_name : String
  pub agent_at : ℤ
  pub agent_detail : String
  pub human_verdict : ℤ
  pub human_at : ℤ
  pub stale : Bool

pub record Node : Type 0 where
  pub id : String
  pub project_id : String
  pub parent_id : String
  pub kind : ℤ
  pub title : String
  pub description : String
  pub condition : String
  pub declared_status : ℤ
  pub status : ℤ
  pub wp_state : ℤ
  pub position : ℤ
  pub verification : Option Verification
  pub created_at : ℤ
  pub updated_at : ℤ
  pub reference : String
  pub note : String

pub record Dependency : Type 0 where
  pub blocker_id : String
  pub blocked_id : String

pub record Event : Type 0 where
  pub seq : ℤ
  pub project_id : String
  pub node_id : String
  pub kind : ℤ
  pub author : String
  pub summary : String
  pub payload_json : String
  pub created_at : ℤ

pub record Progress : Type 0 where
  pub work_package_id : String
  pub total : ℤ
  pub finished : ℤ
  pub ready : ℤ
  pub blocked : ℤ
  pub deferred : ℤ

pub record GetSnapshotResponse : Type 0 where
  pub project : Option Project
  pub nodes : List Node
  pub dependencies : List Dependency
  pub progress : List Progress
  pub recent_events : List Event
  pub seq : ℤ

pub record PollChangesResponse : Type 0 where
  pub events : List Event
  pub seq : ℤ

pub record WriteMeta : Type 0 where
  pub author : String
  pub idempotency_key : String

pub record CreateNodeRequest : Type 0 where
  pub meta : Option WriteMeta
  pub project_id : String
  pub parent_id : String
  pub kind : ℤ
  pub title : String
  pub description : String
  pub condition : String
  pub position : ℤ
  pub reference : String
  pub note : String

pub record UpdateNodeRequest : Type 0 where
  pub meta : Option WriteMeta
  pub node_id : String
  pub title : String
  pub description : String
  pub condition : String
  pub position : ℤ
  pub wp_state : ℤ
  pub reference : String
  pub note : String
  pub update_mask : List String

pub record DeleteNodeRequest : Type 0 where
  pub meta : Option WriteMeta
  pub node_id : String
  pub fail_if_referenced : Bool

pub record SetStatusRequest : Type 0 where
  pub meta : Option WriteMeta
  pub node_id : String
  pub declared_status : ℤ

pub record ReportConditionRequest : Type 0 where
  pub meta : Option WriteMeta
  pub node_id : String
  pub result : ℤ
  pub detail : String

pub record SetVerdictRequest : Type 0 where
  pub meta : Option WriteMeta
  pub node_id : String
  pub verdict : ℤ

pub record AddCommentRequest : Type 0 where
  pub meta : Option WriteMeta
  pub node_id : String
  pub text : String

pub record AddDependencyRequest : Type 0 where
  pub meta : Option WriteMeta
  pub blocker_id : String
  pub blocked_id : String

pub record RemoveDependencyRequest : Type 0 where
  pub meta : Option WriteMeta
  pub blocker_id : String
  pub blocked_id : String

pub record UndoRequest : Type 0 where
  pub meta : Option WriteMeta
  pub project_id : String
  pub seq : ℤ

pub record CreateProjectRequest : Type 0 where
  pub meta : Option WriteMeta
  pub name : String
  pub description : String

pub record UpdateProjectRequest : Type 0 where
  pub meta : Option WriteMeta
  pub project_id : String
  pub name : String
  pub description : String
  pub update_mask : List String

pub record ArchiveProjectRequest : Type 0 where
  pub meta : Option WriteMeta
  pub project_id : String
  pub archived : Bool

pub record MoveNodeRequest : Type 0 where
  pub meta : Option WriteMeta
  pub node_id : String
  pub parent_id : String
  pub kind : ℤ

pub record Mutation : Type 0 where
  pub events : List Event
  pub changed_nodes : List Node
  pub changed_progress : List Progress
  pub seq : ℤ
