-- ===== src/Store/Rows.antt =====
-- flowcore/src/store.rs: the columns that the SELECTs name, as rows of cells, and the conversions
-- from such rows to messages. COALESCE, the comparison of `stale` and the view are in the cells.
use flowcontrol.Common.{
  ℕ, pos, Bool, false, not, String, Option, none, some, List, [], ◌∷◌, unwrap_or, ltb, eqb_ℤ,
}
use flowcontrol.Error.{DResult, ok, err}
use flowcontrol.Schema.{ProjectRow, NodeRow, VerificationRow, EventRow, Db}
use flowcontrol.Schema.View.{effective}
use flowcontrol.Sql.{
  Value, int, text, of_opt_str, of_bool, Row, get_i64, get_i32, get_str, get_opt_str,
}
use flowcontrol.Message.{Project, Verification, Node, Event}
use flowcontrol.Store.Values.{
  effective_status, kind_of, declared_of, wp_state_of, agent_result_of, human_verdict_of,
  event_kind_of,
}

infixl 5 ◌>>=◌
abbrev ◌>>=◌ {ℓ κ} : {A : Type ℓ} {B : Type κ} → DResult A → (A → DResult B) → DResult B
ok a >>= f = f a
err e >>= f = err e

-- A clock value or counter as a cell.
abbrev pub stamp : ℕ → Value
stamp n = int (pos n)

abbrev coalesce_0 : Option ℕ → Value
coalesce_0 o = stamp (unwrap_or o 0)

abbrev coalesce_empty : Option String → Value
coalesce_empty o = text (unwrap_or o "")

-- SELECT id, name, description, COALESCE(archived_at,0), created_at FROM projects
unfoldable pub project_cells : ProjectRow → Row
project_cells p = record {
  cells =
      ("id", text p.id)
      ∷ ("name", text p.name)
      ∷ ("description", text p.description)
      ∷ ("archived_at", coalesce_0 p.archived_at)
      ∷ ("created_at", stamp p.created_at)
      ∷ [];
}

unfoldable pub row_to_project : Row → DResult Project
unfolding get_str get_i64
row_to_project r = do
  id ← get_str r "id"
  name ← get_str r "name"
  description ← get_str r "description"
  archived_at ← get_i64 r "archived_at"
  created_at ← get_i64 r "created_at"
  ok (record {
    id = id;
    name = name;
    description = description;
    created_at = created_at;
    archived_at = archived_at;
  })

-- SELECT n.id, …, n.status AS effective_status FROM node_state n
unfoldable pub node_cells : Db → NodeRow → Row
unfolding effective of_opt_str
node_cells d n = record {
  cells =
      ("id", text n.id)
      ∷ ("project_id", text n.project_id)
      ∷ ("parent_id", coalesce_empty n.parent_id)
      ∷ ("kind", text n.kind)
      ∷ ("title", text n.title)
      ∷ ("description", text n.description)
      ∷ ("condition", text n.condition)
      ∷ ("note", text n.note)
      ∷ ("reference", coalesce_empty n.reference)
      ∷ ("declared_status", text n.declared_status)
      ∷ ("wp_state", of_opt_str n.wp_state)
      ∷ ("position", int n.position)
      ∷ ("created_at", stamp n.created_at)
      ∷ ("updated_at", stamp n.updated_at)
      ∷ ("effective_status", text (effective d n))
      ∷ [];
}

unfoldable pub row_to_node : Row → DResult Node
unfolding get_str get_i64 get_i32 get_opt_str
row_to_node r = do
  kind ← get_str r "kind"
  declared ← get_str r "declared_status"
  wp_state ← get_opt_str r "wp_state"
  id ← get_str r "id"
  project_id ← get_str r "project_id"
  parent_id ← get_str r "parent_id"
  title ← get_str r "title"
  description ← get_str r "description"
  condition ← get_str r "condition"
  note ← get_str r "note"
  reference ← get_str r "reference"
  status ← get_str r "effective_status"
  position ← get_i32 r "position"
  created_at ← get_i64 r "created_at"
  updated_at ← get_i64 r "updated_at"
  ok (record {
    id = id;
    project_id = project_id;
    parent_id = parent_id;
    kind = kind_of kind;
    title = title;
    description = description;
    condition = condition;
    declared_status = declared_of declared;
    status = effective_status status;
    wp_state = wp_state_of wp_state;
    position = position;
    verification = none;
    created_at = created_at;
    updated_at = updated_at;
    reference = reference;
    note = note;
  })

-- `v.agent_node_rev IS NOT NULL AND n.updated_at > v.agent_node_rev`
abbrev pub is_stale : Option ℕ → ℕ → Bool
is_stale none updated_at = false
is_stale (some rev) updated_at = ltb rev updated_at

-- SELECT v.agent_result, …, AS stale FROM verifications v JOIN nodes n
unfoldable pub verification_cells : NodeRow → VerificationRow → Row
unfolding of_opt_str of_bool
verification_cells n v = record {
  cells =
      ("agent_result", of_opt_str v.agent_result)
      ∷ ("agent_name", coalesce_empty v.agent_name)
      ∷ ("agent_at", coalesce_0 v.agent_at)
      ∷ ("agent_detail", text v.agent_detail)
      ∷ ("human_verdict", of_opt_str v.human_verdict)
      ∷ ("human_at", coalesce_0 v.human_at)
      ∷ ("stale", of_bool (is_stale v.agent_node_rev n.updated_at))
      ∷ [];
}

unfoldable pub row_to_verification : Row → DResult Verification
unfolding get_str get_i64 get_opt_str
row_to_verification r = do
  agent_result ← get_opt_str r "agent_result"
  human_verdict ← get_opt_str r "human_verdict"
  agent_name ← get_str r "agent_name"
  agent_at ← get_i64 r "agent_at"
  agent_detail ← get_opt_str r "agent_detail"
  human_at ← get_i64 r "human_at"
  stale ← get_i64 r "stale"
  ok (record {
    agent_result = agent_result_of agent_result;
    agent_name = agent_name;
    agent_at = agent_at;
    agent_detail = unwrap_or agent_detail "";
    human_verdict = human_verdict_of human_verdict;
    human_at = human_at;
    stale = not (eqb_ℤ stale (pos 0));
  })

-- SELECT seq, project_id, COALESCE(node_id,''), …, payload AS payload_json, created_at FROM events
unfoldable pub event_cells : EventRow → Row
event_cells e = record {
  cells =
      ("seq", stamp e.seq)
      ∷ ("project_id", text e.project_id)
      ∷ ("node_id", coalesce_empty e.node_id)
      ∷ ("kind", text e.kind)
      ∷ ("author", text e.author)
      ∷ ("summary", text e.summary)
      ∷ ("payload_json", text e.payload)
      ∷ ("created_at", stamp e.created_at)
      ∷ [];
}

unfoldable pub proto_event : Row → DResult Event
unfolding get_str get_i64
proto_event r = do
  kind ← get_str r "kind"
  seq ← get_i64 r "seq"
  project_id ← get_str r "project_id"
  node_id ← get_str r "node_id"
  author ← get_str r "author"
  summary ← get_str r "summary"
  payload_json ← get_str r "payload_json"
  created_at ← get_i64 r "created_at"
  ok (record {
    seq = seq;
    project_id = project_id;
    node_id = node_id;
    kind = event_kind_of kind;
    author = author;
    summary = summary;
    payload_json = payload_json;
    created_at = created_at;
  })

-- `.iter().map(f).collect()`: the first error, else all the values.
unfoldable pub collect {ℓ κ} :
    {A : Type ℓ} {B : Type κ} → (A → DResult B) → List A → DResult (List B)
collect f [] = ok []
collect f (a ∷ l) = let rest = collect f l in f a >>= λ b. rest >>= λ bs. ok (b ∷ bs)
