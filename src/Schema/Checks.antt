-- ===== src/Schema/Checks.antt =====
-- flowcore/migrations/0001_initial_schema.sql: the CHECK constraints, the foreign keys and the
-- parent-kind triggers. A guard that finds no fault gives `none`, else the text of the abort.
use flowcontrol.Common.{
  Bool, true, false, not, ◌&&◌, ◌||◌, String, Option, none, some, List, [], ◌∷◌, ◌==◌,
  if◌then◌else◌, find, any, mem_str, option_map, is_some,
}
use flowcontrol.Schema.{ProjectRow, NodeRow, VerificationRow, Db}

-- `a IS b`: equality that takes NULL for a value.
abbrev pub is : Option String → Option String → Bool
is none none = true
is (some a) (some b) = a == b
is none (some b) = false
is (some a) none = false

abbrev pub is_not_null : Option String → Bool
is_not_null o = is_some o

unfoldable pub node_at : List NodeRow → String → Option NodeRow
node_at nodes id = find (λ n. n.id == id) nodes

unfoldable pub project_at : List ProjectRow → String → Option ProjectRow
project_at projects id = find (λ p. p.id == id) projects

abbrev pub kind_at : List NodeRow → String → Option String
kind_at nodes id = option_map (λ (n : NodeRow). n.kind) (node_at nodes id)

-- CASE kind WHEN 'TASK' THEN 'WORK_PACKAGE' WHEN 'STEP' THEN 'TASK' END
unfoldable pub parent_kind : String → Option String
parent_kind kind =
    if kind == "TASK" then some "WORK_PACKAGE" else if kind == "STEP" then some "TASK" else none

-- CASE kind WHEN 'WORK_PACKAGE' THEN 'TASK' WHEN 'TASK' THEN 'STEP' END
unfoldable pub child_kind : String → Option String
child_kind kind =
    if kind == "WORK_PACKAGE" then some "TASK" else if kind == "TASK" then some "STEP" else none

-- `SELECT RAISE(ABORT, text) WHERE test`, and the next such statement.
abbrev pub abort_if : Bool → String → Option String → Option String
abort_if true msg next = some msg
abort_if false msg next = next

-- Trigger nodes_parent_kind_insert.
unfoldable pub parent_kind_insert : Db → NodeRow → Option String
unfolding parent_kind
parent_kind_insert d new = elim new.parent_id [
  | none ↦ none
  | some p ↦
      abort_if (not (is (kind_at d.nodes p) (parent_kind new.kind))) "invalid parent kind for node"
        none
]

-- `(SELECT project_id FROM nodes WHERE id = p) <> project`, which NULL makes false.
abbrev pub other_project : Option NodeRow → String → Bool
other_project none project = false
other_project (some p) project = not (p.project_id == project)

unfoldable pub has_parent : String → NodeRow → Bool
has_parent id c = is c.parent_id (some id)

-- Trigger nodes_parent_kind_update, before the row `new` is written.
unfoldable pub parent_kind_update : Db → NodeRow → Option String
unfolding parent_kind child_kind has_parent
parent_kind_update d new =
    let bad_children =
      any (λ c. has_parent new.id c && not (is (some c.kind) (child_kind new.kind))) d.nodes in
    let children = abort_if bad_children "children invalid for new kind" none in
    elim new.parent_id [
      | none ↦ children
      | some p ↦ abort_if (p == new.id) "node cannot be its own parent" (
          abort_if (not (is (kind_at d.nodes p) (parent_kind new.kind)))
            "invalid parent kind for node"
            (abort_if (other_project (node_at d.nodes p) new.project_id) "cross-project move"
              children))
    ]

-- `column IN (…)`, which a NULL passes.
abbrev pub opt_in : Option String → List String → Bool
opt_in none l = true
opt_in (some s) l = mem_str s l

-- The CHECKs of `nodes`.
unfoldable pub node_checks : NodeRow → Bool
node_checks n =
    mem_str n.kind ("WORK_PACKAGE" ∷ "TASK" ∷ "STEP" ∷ [])
    && mem_str n.declared_status ("OPEN" ∷ "DEFERRED" ∷ "DONE" ∷ [])
    && opt_in n.wp_state ("PLANNED" ∷ "ACTIVE" ∷ "DONE" ∷ "ARCHIVED" ∷ [])
    && ((n.kind == "WORK_PACKAGE" && not (is_not_null n.parent_id) && is_not_null n.wp_state)
        || ((n.kind == "TASK" || n.kind == "STEP")
            && is_not_null n.parent_id
            && not (is_not_null n.wp_state)))

-- REFERENCES nodes(id) of a nullable column.
unfoldable pub node_reference : Db → Option String → Bool
unfolding node_at
node_reference d none = true
node_reference d (some id) = is_some (node_at d.nodes id)

unfoldable pub project_reference : Db → String → Bool
unfolding project_at
project_reference d id = is_some (project_at d.projects id)

-- The foreign keys of `nodes`.
unfoldable pub node_references : Db → NodeRow → Bool
unfolding node_reference project_reference
node_references d n = project_reference d n.project_id && node_reference d n.parent_id

-- The CHECK on `events.kind`.
unfoldable pub event_kind_in : String → Bool
event_kind_in kind = mem_str kind (
    "NODE_CREATED" ∷ "NODE_UPDATED" ∷ "NODE_DELETED" ∷ "STATUS_SET" ∷ "DEP_ADDED" ∷ "DEP_REMOVED"
    ∷ "AGENT_REPORTED" ∷ "VERDICT_SET" ∷ "COMMENT" ∷ [])

-- The CHECKs of `verifications`.
unfoldable pub verification_checks : VerificationRow → Bool
verification_checks v =
    opt_in v.agent_result ("PASS" ∷ "FAIL" ∷ [])
    && opt_in v.human_verdict ("ACCEPTED" ∷ "REJECTED" ∷ [])
    && (not (is_not_null v.agent_result) || is_some v.agent_at)
    && (not (is_not_null v.human_verdict) || is_some v.human_at)
