-- ===== src/Statement/Events.antt =====
-- The one statement that writes and returns a row: `INSERT INTO events … RETURNING …`.
use flowcontrol.Common.{suc, Bool, not, ◌&&◌, String, Option, [], ◌∷◌, ◌++◌, if◌then◌else◌}
use flowcontrol.Error.{DResult, ok, err}
use flowcontrol.Schema.{EventRow, Db, Host, check, foreign_key}
use flowcontrol.Schema.Checks.{event_kind_in, node_reference, project_reference}
use flowcontrol.Statement.Nodes.{violated}

-- The parameters of the statement.
pub record EventValues : Type 0 where
  pub project_id : String
  pub node_id : Option String
  pub kind : String
  pub author : String
  pub summary : String
  pub payload : String

-- AUTOINCREMENT: one more than any number that was ever given.
abbrev pub event_row : Host → EventValues → Db → EventRow
event_row host v d = record {
  seq = suc d.last_seq;
  project_id = v.project_id;
  node_id = v.node_id;
  kind = v.kind;
  author = v.author;
  summary = v.summary;
  payload = v.payload;
  created_at = host.now;
}

abbrev pub with_event : EventRow → Db → Db
with_event e d = record d { events = d.events ++ e ∷ []; last_seq = e.seq }

-- The CHECKs and foreign keys of `events`.
unfoldable pub event_checks : Host → EventValues → Bool
unfolding event_kind_in
event_checks host v = event_kind_in v.kind && host.json_valid v.payload

unfoldable pub event_references : EventValues → Db → Bool
unfolding node_reference project_reference
event_references v d = project_reference d v.project_id && node_reference d v.node_id

unfoldable pub insert_event : Host → EventValues → Db → DResult EventRow
unfolding event_checks event_references
insert_event host v d =
    if not (event_checks host v)
    then err (violated host check "events")
    else if not (event_references v d)
    then err (violated host foreign_key "events")
    else ok (event_row host v d)
