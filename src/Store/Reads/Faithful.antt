-- ===== src/Store/Reads/Faithful.antt =====
-- flowcore/src/store.rs: row_to_node and the other conversions on the rows that the SELECTs of the
-- store give: which message each row becomes.
use flowcontrol.Common.{
  pos, Bool, true, false, not, String, Option, none, some, ◌≡◌, refl, unwrap_or, option_map,
  wrap_i32, Bool-cases, inl, inr, eqb_ℤ, if◌then◌else◌,
}
use flowcontrol.Error.{ok}
use flowcontrol.Schema.{ProjectRow, NodeRow, VerificationRow, EventRow, Db}
use flowcontrol.Schema.Checks.{node_at}
use flowcontrol.Schema.View.{effective}
use flowcontrol.Sql.{
  of_opt_str, of_bool, cell, get_i64, get_i32, get_str, get_opt_str, done, as_opt_text, as_int,
  lift, ◌>>=◌,
}
use flowcontrol.Message.{Project, Verification, Node, Event}
use flowcontrol.Statement.{Conn}
use flowcontrol.Statement.Edges.{verification_at}
use flowcontrol.Store.Values.{
  effective_status, kind_of, declared_of, wp_state_of, agent_result_of, human_verdict_of,
  event_kind_of,
}
use flowcontrol.Store.Rows.{
  project_cells, row_to_project, node_cells, row_to_node, is_stale, verification_cells,
  row_to_verification, event_cells, proto_event,
}
use flowcontrol.Store.Reads.{verification_for, with_verification, fetch_node, joined, transpose}

abbrev pub node_message : Db → NodeRow → Node
node_message d n = record {
  id = n.id;
  project_id = n.project_id;
  parent_id = unwrap_or n.parent_id "";
  kind = kind_of n.kind;
  title = n.title;
  description = n.description;
  condition = n.condition;
  declared_status = declared_of n.declared_status;
  status = effective_status (effective d n);
  wp_state = wp_state_of n.wp_state;
  position = wrap_i32 n.position;
  verification = none;
  created_at = pos n.created_at;
  updated_at = pos n.updated_at;
  reference = unwrap_or n.reference "";
  note = n.note;
}

abbrev pub event_message : EventRow → Event
event_message e = record {
  seq = pos e.seq;
  project_id = e.project_id;
  node_id = unwrap_or e.node_id "";
  kind = event_kind_of e.kind;
  author = e.author;
  summary = e.summary;
  payload_json = e.payload;
  created_at = pos e.created_at;
}

abbrev pub project_message : ProjectRow → Project
project_message p = record {
  id = p.id;
  name = p.name;
  description = p.description;
  created_at = pos p.created_at;
  archived_at = pos (unwrap_or p.archived_at 0);
}

abbrev pub verification_message : NodeRow → VerificationRow → Verification
verification_message n v = record {
  agent_result = agent_result_of v.agent_result;
  agent_name = unwrap_or v.agent_name "";
  agent_at = pos (unwrap_or v.agent_at 0);
  agent_detail = v.agent_detail;
  human_verdict = human_verdict_of v.human_verdict;
  human_at = pos (unwrap_or v.human_at 0);
  stale = is_stale v.agent_node_rev n.updated_at;
}

as_opt_text-of_opt_str : (col : String) (o : Option String) → as_opt_text col (of_opt_str o) ≡ ok o
unfolding of_opt_str
as_opt_text-of_opt_str col none = refl
as_opt_text-of_opt_str col (some s) = refl

-- A SELECT of nodes gives rows that row_to_node takes, and what the message then holds.
pub row_to_node-node_cells :
    (d : Db) (n : NodeRow) → row_to_node (node_cells d n) ≡ ok (node_message d n)
unfolding row_to_node node_cells get_str get_i64 get_i32 get_opt_str cell
row_to_node-node_cells d n = rw (as_opt_text-of_opt_str "wp_state" n.wp_state) refl

stale-of_bool : (b : Bool) → not (eqb_ℤ (pos (if b then 1 else 0)) (pos 0)) ≡ b
stale-of_bool true = refl
stale-of_bool false = refl

int-of_bool : (col : String) (b : Bool) → as_int col (of_bool b) ≡ ok (if b then pos 1 else pos 0)
unfolding of_bool
int-of_bool col b = refl

pub row_to_verification-verification_cells :
    (n : NodeRow) (v : VerificationRow)
    → row_to_verification (verification_cells n v) ≡ ok (verification_message n v)
unfolding row_to_verification verification_cells get_str get_i64 get_opt_str cell of_bool
row_to_verification-verification_cells n v =
    elim (Bool-cases (is_stale v.agent_node_rev n.updated_at)) [
      | inl e ↦
          rw
            (
              as_opt_text-of_opt_str "agent_result" v.agent_result,
              as_opt_text-of_opt_str "human_verdict" v.human_verdict,
              e,
            )
            refl
      | inr e ↦
          rw
            (
              as_opt_text-of_opt_str "agent_result" v.agent_result,
              as_opt_text-of_opt_str "human_verdict" v.human_verdict,
              e,
            )
            refl
    ]

pub proto_event-event_cells : (e : EventRow) → proto_event (event_cells e) ≡ ok (event_message e)
unfolding proto_event event_cells get_str get_i64 cell
proto_event-event_cells e = refl

pub row_to_project-project_cells :
    (p : ProjectRow) → row_to_project (project_cells p) ≡ ok (project_message p)
unfolding row_to_project project_cells get_str get_i64 cell
row_to_project-project_cells p = refl

abbrev pub verification_of : Db → String → Option Verification
verification_of d id = elim (verification_at d.verifications id) [
  | none ↦ none
  | some v ↦ option_map (λ n. verification_message n v) (node_at d.nodes id)
]

verification_at_lem :
    (v : Option VerificationRow) (n : Option NodeRow) (c : Conn)
    → lift (transpose row_to_verification (joined v n)) c
      ≡ done (elim v [ none ↦ none | some v ↦ option_map (λ n. verification_message n v) n ]) c
verification_at_lem none n c = refl
verification_at_lem (some v) none c = refl
verification_at_lem (some v) (some n) c = rw (row_to_verification-verification_cells n v) refl

-- The read of a verification gives the joined row as a message, and changes nothing.
pub verification_for_lem :
    (id : String) (c : Conn) → verification_for id c ≡ done (verification_of c.db id) c
unfolding verification_for
verification_for_lem id c =
    verification_at_lem (verification_at c.db.verifications id) (node_at c.db.nodes id) c

-- The whole message of a node.
abbrev pub node_full : Db → NodeRow → Node
node_full d n = record (node_message d n) { verification = verification_of d n.id }

fetch_at :
    (o : Option NodeRow) (c : Conn)
    → (lift (transpose row_to_node (option_map (node_cells c.db) o)) >>= with_verification) c
      ≡ done (option_map (node_full c.db) o) c
unfolding with_verification
fetch_at none c = refl
fetch_at (some n) c = rw (row_to_node-node_cells c.db n, verification_for_lem n.id c) refl

-- fetch_node never fails and changes nothing: it gives the stored row with its effective status and
-- its verification, or none when no row has the id.
pub fetch_node_lem :
    (id : String) (c : Conn)
    → fetch_node id c ≡ done (option_map (node_full c.db) (node_at c.db.nodes id)) c
unfolding fetch_node
fetch_node_lem id c = fetch_at (node_at c.db.nodes id) c
