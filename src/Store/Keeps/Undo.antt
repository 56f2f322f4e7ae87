-- ===== src/Store/Keeps/Undo.antt =====
-- Invariants over undo_locked of flowcore/src/store.rs and its arms.
use flowcontrol.Schema.{Db, Host}
use flowcontrol.Message.{Event, UndoRequest}
use flowcontrol.Json.{Json}
use flowcontrol.Store.Keeps.{Preserves, ByStatement, Keeps, Keeps-execute}
use flowcontrol.Store.Keeps.Helpers.{read_rules, append_event-Keeps, record_idempotency-Keeps}
use flowcontrol.Store.Undo.{
  undo_status, undo_dep_added, undo_dep_removed, undo_created, restore_node, undo_deleted,
  undo_step, undo_fresh, undo_locked,
}

module _ {P : Db → Type 0} (keep : ByStatement P) where
  undo_status-Keeps : (host : Host) (e : Event) → Keeps P (undo_status host e)
  unfolding undo_status
  undo_status-Keeps host e = search (read_rules, Keeps-execute keep) depth 8

  undo_dep_added-Keeps : (host : Host) (e : Event) → Keeps P (undo_dep_added host e)
  unfolding undo_dep_added
  undo_dep_added-Keeps host e = search (read_rules, Keeps-execute keep) depth 8

  undo_dep_removed-Keeps : (host : Host) (e : Event) → Keeps P (undo_dep_removed host e)
  unfolding undo_dep_removed
  undo_dep_removed-Keeps host e = search (read_rules, Keeps-execute keep) depth 8

  undo_created-Keeps : (host : Host) (e : Event) → Keeps P (undo_created host e)
  unfolding undo_created
  undo_created-Keeps host e = search (read_rules, Keeps-execute keep) depth 8

  restore_node-Keeps : (host : Host) (obj : Json) → Keeps P (restore_node host obj)
  unfolding restore_node
  restore_node-Keeps host obj = Keeps-execute keep host _

  undo_deleted-Keeps : (host : Host) (e : Event) → Keeps P (undo_deleted host e)
  unfolding undo_deleted
  undo_deleted-Keeps host e = search (read_rules, restore_node-Keeps) depth 10

  pub undo_step-Keeps : (host : Host) (e : Event) → Keeps P (undo_step host e)
  unfolding undo_step
  undo_step-Keeps host e =
      search
        (
          read_rules, undo_status-Keeps, undo_dep_added-Keeps, undo_dep_removed-Keeps,
          undo_created-Keeps, undo_deleted-Keeps,
        )
        depth 8

module _ {P : Db → Type 0} (keep : Preserves P) where
  undo_fresh-Keeps : (host : Host) (req : UndoRequest) (e : Event) → Keeps P (undo_fresh host req e)
  unfolding undo_fresh
  undo_fresh-Keeps host req e =
      search
        (
          read_rules,
          undo_step-Keeps keep.by_statement,
          append_event-Keeps keep,
          record_idempotency-Keeps keep.by_statement,
        )
        depth 12

  pub undo-Keeps : (host : Host) (req : UndoRequest) → Keeps P (undo_locked host req)
  unfolding undo_locked
  undo-Keeps host req = search (read_rules, undo_fresh-Keeps) depth 9
