-- ===== src/Statement/Syntax.antt =====
-- The writing SQL statements of flowcore/src/store.rs, with their parameters.
use flowcontrol.Common.{ℤ, String, Option}

-- `UPDATE nodes SET column = value`.
pub data Column : Type 0 where
  title description condition reference note declared_status : String → Column
  position : ℤ → Column
  wp_state : Option String → Column

-- The parameters of `INSERT INTO nodes (…) VALUES (…)`, NULLIF undone.
pub record NodeValues : Type 0 where
  pub id : String
  pub project_id : String
  pub parent_id : String
  pub kind : String
  pub title : String
  pub description : String
  pub condition : String
  pub note : String
  pub reference : String
  pub declared_status : String
  pub wp_state : Option String
  pub position : ℤ

pub data Statement : Type 0 where
  insert_node insert_or_ignore_node : NodeValues → Statement
  update_node : String → Column → Statement
  -- UPDATE nodes SET parent_id = NULLIF(?1, ''), kind = ?2, position = ?3 WHERE id = ?4
  update_place : String → String → ℤ → String → Statement
  delete_node : String → Statement
  insert_or_ignore_dependency delete_dependency : String → String → Statement
  -- the agent's half: node, result, name, detail
  upsert_agent : String → String → String → String → Statement
  -- the operator's half: node, verdict
  upsert_verdict : String → String → Statement
  clear_verdict delete_verification : String → Statement
  -- project, key, seq, entity
  insert_or_ignore_key : String → String → ℤ → Option String → Statement
  insert_project : String → String → String → Statement
  update_project_name update_project_description : String → String → Statement
  touch_project : String → Statement
  archive_project unarchive_project : String → Statement
