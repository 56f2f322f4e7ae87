-- ===== src/Examples/Samples.antt =====
-- A small plan for the runs: one project, a work package, two tasks, and the first task blocks the
-- second.
use flowcontrol.Schema.Checks.{node_checks, node_at}
use flowcontrol.Store.Invariant.Log.{IsOrdered}
use flowcontrol.Store.Invariant.Rows.{IsSound}
use flowcontrol.Common.{arith, refl, pos, String, Option, none, some, [], ◌∷◌, true}
use flowcontrol.Error.{ok}
use flowcontrol.Json.{object, end}
use flowcontrol.Schema.{Db, Host, NodeRow, ProjectRow, DependencyRow, EventRow}
use flowcontrol.Message.{WriteMeta}

abbrev pub sample_host : Host
sample_host = record {
  now = 100;
  mint = λ prefix. prefix;
  violation = λ c table. "constraint failed";
  refuse_commit = λ d. none;
  to_string = λ v. "{}";
  from_str = λ s. some (object end);
  json_valid = λ s. true;
  match_fts = λ nodes query. ok [];
}

abbrev pub sample_node : String → Option String → String → String → Option String → NodeRow
sample_node id parent kind declared wp = record {
  id = id;
  project_id = "prj";
  parent_id = parent;
  kind = kind;
  title = id;
  description = "";
  condition = "";
  reference = none;
  note = "";
  declared_status = declared;
  wp_state = wp;
  position = pos 0;
  created_at = 1;
  updated_at = 1;
}

abbrev pub sample_edge : DependencyRow
sample_edge = record { blocker_id = "t1"; blocked_id = "t2"; created_at = 2 }

abbrev pub sample_project : ProjectRow
sample_project = record {
  id = "prj";
  name = "plan";
  description = "";
  archived_at = none;
  created_at = 1;
  updated_at = 1;
}

abbrev pub sample_event : EventRow
sample_event = record {
  seq = 3;
  project_id = "prj";
  node_id = some "t1";
  kind = "NODE_CREATED";
  author = "";
  summary = "created t1";
  payload = "{}";
  created_at = 1;
}

abbrev pub sample_db : Db
sample_db = record {
  projects = sample_project ∷ [];
  nodes =
      sample_node "w" none "WORK_PACKAGE" "OPEN" (some "PLANNED")
      ∷ sample_node "t1" (some "w") "TASK" "OPEN" none
      ∷ sample_node "t2" (some "w") "TASK" "OPEN" none
      ∷ [];
  verifications = [];
  dependencies = sample_edge ∷ [];
  events = sample_event ∷ [];
  idempotency = [];
  last_seq = 4;
}

abbrev pub sample_meta : Option WriteMeta
sample_meta = some (record { author = "ann"; idempotency_key = "k1" })

pub sample_db-IsSound : IsSound sample_db
unfolding node_checks node_at
sample_db-IsSound = record { rows = (refl, refl, (refl, refl, (refl, refl, tt))) }

pub sample_db-IsOrdered : IsOrdered sample_db
sample_db-IsOrdered = record { log = (omega arith, omega arith) }
