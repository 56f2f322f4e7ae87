-- ===== src/Schema/Classified.antt =====
-- The messages of the triggers of flowcore/migrations/0001_initial_schema.sql, as flowcore/src/error.rs
-- classifies them.
use flowcontrol.Common.{
  ◌≡◌, refl, subst, ◌⊎◌, inl, inr, Bool, true, false, not, String, Option, none, some, ◌==◌, List,
}
use flowcontrol.Error.{failed_precondition, from_db_message, classify}
use flowcontrol.Schema.{NodeRow, Db}
use flowcontrol.Schema.Checks.{
  abort_if, parent_kind_insert, parent_kind_update, is, kind_at, parent_kind, other_project,
  node_at,
}

-- The message has the code FAILED_PRECONDITION.
abbrev pub IsPrecondition : String → Type 0
IsPrecondition message = (from_db_message message).code ≡ failed_precondition

same_message : {a b : String} → some a ≡ some b → a ≡ b
same_message h = cc

-- A trigger's message is that of its first test that fails.
aborted :
    (b : Bool) (m : String) (next : Option String) (message : String)
    → IsPrecondition m
    → (next ≡ some message → IsPrecondition message)
    → abort_if b m next ≡ some message
    → IsPrecondition message
aborted true m next message p rest h = subst IsPrecondition (same_message h) p
aborted false m next message p rest h = rest h

never : (message : String) → none ≡ some message → IsPrecondition message
never message h = absurd cc

own_parent : IsPrecondition "node cannot be its own parent"
unfolding from_db_message classify
own_parent = refl

wrong_kind : IsPrecondition "invalid parent kind for node"
unfolding from_db_message classify
wrong_kind = refl

cross_project : IsPrecondition "cross-project move"
unfolding from_db_message classify
cross_project = refl

bad_children : IsPrecondition "children invalid for new kind"
unfolding from_db_message classify
bad_children = refl

insert-IsPrecondition :
    (nodes : List NodeRow) (kind o : Option String) (message : String)
    → elim o [
      | none ↦ none
      | some p ↦ abort_if (not (is (kind_at nodes p) kind)) "invalid parent kind for node" none
    ]
      ≡ some message
    → IsPrecondition message
insert-IsPrecondition nodes kind none message h = never message h
insert-IsPrecondition nodes kind (some p) message h =
    aborted _ "invalid parent kind for node" none message wrong_kind (never message) h

update-IsPrecondition :
    (d : Db) (new : NodeRow) (children o : Option String) (message : String)
    → (children ≡ some message → IsPrecondition message)
    → elim o [
      | none ↦ children
      | some p ↦ abort_if (p == new.id) "node cannot be its own parent" (
          abort_if
            (not (is (kind_at d.nodes p) (parent_kind new.kind)))
            "invalid parent kind for node"
            (abort_if
              (other_project (node_at d.nodes p) new.project_id)
              "cross-project move"
              children))
    ]
      ≡ some message
    → IsPrecondition message
update-IsPrecondition d new children none message rest h = rest h
update-IsPrecondition d new children (some p) message rest h =
    aborted _ "node cannot be its own parent" _ message own_parent
      (aborted _ "invalid parent kind for node" _ message wrong_kind
        (aborted _ "cross-project move" _ message cross_project rest))
      h

-- Each message with which a trigger on the kinds of nodes refuses a row, put in or moved, is classified
-- as FAILED_PRECONDITION.
pub trigger-IsPrecondition :
    (d : Db) (new : NodeRow) (message : String)
    → (parent_kind_insert d new ≡ some message) ⊎ (parent_kind_update d new ≡ some message)
    → IsPrecondition message
unfolding parent_kind_insert parent_kind_update
trigger-IsPrecondition d new message (inl h) =
    insert-IsPrecondition d.nodes (parent_kind new.kind) new.parent_id message h
trigger-IsPrecondition d new message (inr h) =
    update-IsPrecondition d new _ new.parent_id message
      (aborted _ "children invalid for new kind" none message bad_children (never message)) h
