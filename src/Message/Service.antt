-- ===== src/Message/Service.antt =====
-- flowcore/src/generated/flow.v1.rs: the requests and responses of the service's methods, where they
-- are not those that the store takes and gives.
use flowcontrol.Common.{ℤ, Bool, String, Option, List}
use flowcontrol.Message.{Project, Node, Event, Progress, Mutation}

pub record ListProjectsRequest : Type 0 where
  pub include_archived : Bool

pub record ListProjectsResponse : Type 0 where
  pub projects : List Project

pub record GetSnapshotRequest : Type 0 where
  pub project_id : String

pub record ListEventsRequest : Type 0 where
  pub project_id : String
  pub node_id : String
  pub before_seq : ℤ
  pub limit : ℤ

pub record ListEventsResponse : Type 0 where
  pub events : List Event
  pub has_more : Bool

pub record SearchRequest : Type 0 where
  pub project_id : String
  pub query : String
  pub limit : ℤ

pub record SearchResponse : Type 0 where
  pub nodes : List Node

pub record PollChangesRequest : Type 0 where
  pub project_id : String
  pub after_seq : ℤ
  pub limit : ℤ

pub record WatchRequest : Type 0 where
  pub project_id : String
  pub from_seq : ℤ

pub record WatchResponse : Type 0 where
  pub events : List Event
  pub changed_nodes : List Node
  pub changed_progress : List Progress
  pub seq : ℤ
  pub resync_required : Bool
  pub heartbeat : Bool

pub record CreateNodeResponse : Type 0 where
  pub mutation : Option Mutation

pub record UpdateNodeResponse : Type 0 where
  pub mutation : Option Mutation

pub record DeleteNodeResponse : Type 0 where
  pub mutation : Option Mutation

pub record SetStatusResponse : Type 0 where
  pub mutation : Option Mutation

pub record AddDependencyResponse : Type 0 where
  pub mutation : Option Mutation

pub record RemoveDependencyResponse : Type 0 where
  pub mutation : Option Mutation

pub record ReportConditionResponse : Type 0 where
  pub mutation : Option Mutation

pub record SetVerdictResponse : Type 0 where
  pub mutation : Option Mutation

pub record AddCommentResponse : Type 0 where
  pub mutation : Option Mutation

pub record UndoResponse : Type 0 where
  pub mutation : Option Mutation

pub record MoveNodeResponse : Type 0 where
  pub mutation : Option Mutation

pub record CreateProjectResponse : Type 0 where
  pub project : Option Project

pub record UpdateProjectResponse : Type 0 where
  pub project : Option Project

pub record ArchiveProjectResponse : Type 0 where
  pub project : Option Project
