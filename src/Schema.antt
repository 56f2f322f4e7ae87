-- ===== src/Schema.antt =====
-- flowcore/migrations/0001_initial_schema.sql: the tables, one record for each row type and a list
-- of rows for each table, in the order of insertion. A TEXT column is a text, a nullable column an
-- option; STRICT and NOT NULL are these types. The constraints, triggers and the view are in the
-- children. `Host` holds what the engine, the clock and serde_json supply.
pub mod Checks
pub mod Cycle
pub mod Cascade
pub mod View
pub mod Rows
pub mod Links
pub mod Tree
pub mod Classified
use flowcontrol.Common.{ℕ, ℤ, Bool, String, Option, List}
use flowcontrol.Error.{DResult}
use flowcontrol.Json.{Json}

pub record ProjectRow : Type 0 where
  pub id : String
  pub name : String
  pub description : String
  pub archived_at : Option ℕ
  pub created_at : ℕ
  pub updated_at : ℕ

pub record NodeRow : Type 0 where
  pub id : String
  pub project_id : String
  pub parent_id : Option String
  pub kind : String
  pub title : String
  pub description : String
  pub condition : String
  pub reference : Option String
  pub note : String
  pub declared_status : String
  pub wp_state : Option String
  pub position : ℤ
  pub created_at : ℕ
  pub updated_at : ℕ

pub record VerificationRow : Type 0 where
  pub node_id : String
  pub agent_result : Option String
  pub agent_name : Option String
  pub agent_at : Option ℕ
  pub agent_node_rev : Option ℕ
  pub agent_detail : String
  pub human_verdict : Option String
  pub human_at : Option ℕ

pub record DependencyRow : Type 0 where
  pub blocker_id : String
  pub blocked_id : String
  pub created_at : ℕ

pub record EventRow : Type 0 where
  pub seq : ℕ
  pub project_id : String
  pub node_id : Option String
  pub kind : String
  pub author : String
  pub summary : String
  pub payload : String
  pub created_at : ℕ

pub record IdempotencyRow : Type 0 where
  pub project_id : String
  pub idempotency_key : String
  pub seq : ℤ
  pub entity_id : Option String
  pub created_at : ℕ

-- The database. `last_seq` is the counter of `events.seq`, which AUTOINCREMENT never sets back.
pub record Db : Type 0 where
  pub projects : List ProjectRow
  pub nodes : List NodeRow
  pub verifications : List VerificationRow
  pub dependencies : List DependencyRow
  pub events : List EventRow
  pub idempotency : List IdempotencyRow
  pub last_seq : ℕ

-- The kinds of constraint whose violation the engine reports in a text of its own.
pub data Constraint : Type 0 where
  check primary_key foreign_key : Constraint

-- What an operation takes from outside the repository, fixed for one operation.
pub record Host : Type 0 where
  -- unixepoch()
  pub now : ℕ
  -- the text that `new_id`'s SELECT mints from a prefix, by the clock and randomblob()
  pub mint : String → String
  -- the engine's text for a violated constraint of a table
  pub violation : Constraint → String → String
  -- the engine's refusal of a COMMIT that would make a database durable: none, or its text
  pub refuse_commit : Db → Option String
  -- serde_json's Value::to_string and from_str
  pub to_string : Json → String
  pub from_str : String → Option Json
  -- the engine's json_valid()
  pub json_valid : String → Bool
  -- nodes_fts MATCH: the ids of the matching nodes in rank order, or an error
  pub match_fts : List NodeRow → String → DResult (List String)
