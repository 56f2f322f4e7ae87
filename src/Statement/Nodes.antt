-- ===== src/Statement/Nodes.antt =====
-- The statements on the table `nodes`, over the schema's triggers and constraints.
use flowcontrol.Common.{
  ℤ, Bool, true, false, not, String, Option, none, some, [], ◌∷◌, ◌++◌, ◌==◌, if◌then◌else◌,
  update_if, is_some,
}
use flowcontrol.Error.{DomainError, DResult, ok, err, from_db_message}
use flowcontrol.Schema.{NodeRow, Db, Host, Constraint, check, primary_key, foreign_key}
use flowcontrol.Schema.Checks.{
  node_at, parent_kind_insert, parent_kind_update, node_checks, node_reference, node_references,
}
use flowcontrol.Schema.Cascade.{subtree, remove_nodes}
use flowcontrol.Statement.Syntax.{
  Column, title, description, condition, reference, note, declared_status, position, wp_state,
  NodeValues,
}

abbrev pub violated : Host → Constraint → String → DomainError
violated host c table = from_db_message (host.violation c table)

-- NULLIF(s, '')
abbrev pub null_if_empty : String → Option String
null_if_empty s = if s == "" then none else some s

abbrev pub node_of_values : Host → NodeValues → NodeRow
node_of_values host v = record {
  id = v.id;
  project_id = v.project_id;
  parent_id = null_if_empty v.parent_id;
  kind = v.kind;
  title = v.title;
  description = v.description;
  condition = v.condition;
  reference = null_if_empty v.reference;
  note = v.note;
  declared_status = v.declared_status;
  wp_state = v.wp_state;
  position = v.position;
  created_at = host.now;
  updated_at = host.now;
}

-- A row that a CHECK or the primary key refuses: an error, or `d` where the statement ignores it.
abbrev pub refused : Bool → Host → Constraint → String → Db → DResult Db
refused true host c table d = ok d
refused false host c table d = err (violated host c table)

abbrev pub guarded : Option String → DResult Db → DResult Db
guarded (some message) next = err (from_db_message message)
guarded none next = next

unfoldable pub insert_node_row : Bool → Host → NodeRow → Db → DResult Db
unfolding parent_kind_insert node_checks node_references
insert_node_row ignore host new d = guarded (parent_kind_insert d new) (
    if not (node_checks new)
    then refused ignore host check "nodes" d
    else if is_some (node_at d.nodes new.id)
    then refused ignore host primary_key "nodes" d
    else if not (node_references d new)
    then err (violated host foreign_key "nodes")
    else ok (record d { nodes = d.nodes ++ new ∷ [] }))

abbrev pub set_column : Column → NodeRow → NodeRow
set_column (title s) n = record n { title = s }
set_column (description s) n = record n { description = s }
set_column (condition s) n = record n { condition = s }
set_column (reference s) n = record n { reference = some s }
set_column (note s) n = record n { note = s }
set_column (declared_status s) n = record n { declared_status = s }
set_column (position p) n = record n { position = p }
set_column (wp_state w) n = record n { wp_state = w }

-- Trigger nodes_touch.
abbrev pub touch : Host → NodeRow → NodeRow
touch host n = record n { updated_at = host.now }

abbrev pub write_node : Host → String → (NodeRow → NodeRow) → Db → Db
write_node host id f d = record d {
  nodes = update_if (λ (n : NodeRow). n.id == id) (λ n. touch host (f n)) d.nodes;
}

unfoldable pub update_node_column : Host → String → (NodeRow → NodeRow) → Db → DResult Db
unfolding node_checks
update_node_column host id f d = elim (node_at d.nodes id) [
  | none ↦ ok d
  | some n ↦
      if node_checks (f n) then ok (write_node host id f d) else err (violated host check "nodes")
]

abbrev pub set_place : String → String → ℤ → NodeRow → NodeRow
set_place parent kind at n = record n {
  parent_id = null_if_empty parent;
  kind = kind;
  position = at;
}

unfoldable pub update_node_place : Host → (NodeRow → NodeRow) → String → Db → DResult Db
unfolding parent_kind_update node_checks node_reference
update_node_place host f id d = elim (node_at d.nodes id) [
  | none ↦ ok d
  | some n ↦ guarded (parent_kind_update d (f n)) (
      if not (node_checks (f n))
      then err (violated host check "nodes")
      else if not (node_reference d (f n).parent_id)
      then err (violated host foreign_key "nodes")
      else ok (write_node host id f d))
]

unfoldable pub delete_node_row : String → Db → Db
unfolding subtree remove_nodes
delete_node_row id d = elim (node_at d.nodes id) [
  | none ↦ d
  | some n ↦ remove_nodes (subtree d.nodes id) d
]
