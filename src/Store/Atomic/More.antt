-- ===== src/Store/Atomic/More.antt =====
-- The reports, moves and undo of flowcore/src/store.rs, taken apart in the same way.
use flowcontrol.Common.{String, Option, none, some}
use flowcontrol.Schema.{Host}
use flowcontrol.Message.{
  Node, Event, Mutation, ReportConditionRequest, SetVerdictRequest, AddCommentRequest,
  MoveNodeRequest, UndoRequest,
}
use flowcontrol.Statement.{Session}
use flowcontrol.Store.Atomic.{Atomic, Atomic-raise}
use flowcontrol.Store.Atomic.Rules.{atomic_rules, body_rules}
use flowcontrol.Store.Keeps.More.{drop_if_demoted-Keeps, clear_if-Keeps}
use flowcontrol.Store.Keeps.Undo.{undo_step-Keeps}
use flowcontrol.Store.Invariant.Rows.{IsSound, Sound-Preserves}
use flowcontrol.Store.Reports.{
  report_fresh, report_condition_locked, verdict_fresh, set_verdict_locked, comment_fresh,
  add_comment_locked,
}
use flowcontrol.Store.Moves.{move_fresh, unless_refused, move_node_locked}
use flowcontrol.Store.Undo.{undo_fresh, undo_locked}

report_fresh-Atomic :
    (host : Host) (req : ReportConditionRequest) (current : Node)
    → Atomic host (report_fresh host req current)
unfolding report_fresh
report_fresh-Atomic host req current = search (atomic_rules, body_rules) depth 16

pub report_condition-Atomic :
    (host : Host) (req : ReportConditionRequest) → Atomic host (report_condition_locked host req)
unfolding report_condition_locked
report_condition-Atomic host req = search (atomic_rules, report_fresh-Atomic) depth 9

verdict_fresh-Atomic :
    (host : Host) (req : SetVerdictRequest) (current : Node)
    → Atomic host (verdict_fresh host req current)
unfolding verdict_fresh
verdict_fresh-Atomic host req current = search (atomic_rules, body_rules) depth 16

pub set_verdict-Atomic :
    (host : Host) (req : SetVerdictRequest) → Atomic host (set_verdict_locked host req)
unfolding set_verdict_locked
set_verdict-Atomic host req = search (atomic_rules, verdict_fresh-Atomic) depth 9

comment_fresh-Atomic :
    (host : Host) (req : AddCommentRequest) (current : Node)
    → Atomic host (comment_fresh host req current)
unfolding comment_fresh
comment_fresh-Atomic host req current = search (atomic_rules, body_rules) depth 16

pub add_comment-Atomic :
    (host : Host) (req : AddCommentRequest) → Atomic host (add_comment_locked host req)
unfolding add_comment_locked
add_comment-Atomic host req = search (atomic_rules, comment_fresh-Atomic) depth 9

move_fresh-Atomic :
    (host : Host) (req : MoveNodeRequest) (current : Node)
    → Atomic host (move_fresh host req current)
unfolding move_fresh
move_fresh-Atomic host req current =
    search
      (
        atomic_rules,
        body_rules,
        drop_if_demoted-Keeps Sound-Preserves,
        clear_if-Keeps {P = IsSound} Sound-Preserves.by_statement,
      )
      depth 18

unless_refused-Atomic :
    {host : Host} (o : Option String) (m : Session Mutation)
    → Atomic host m
    → Atomic host (unless_refused o m)
unless_refused-Atomic none m am = am
unless_refused-Atomic (some message) m am = Atomic-raise _

pub move_node-Atomic :
    (host : Host) (req : MoveNodeRequest) → Atomic host (move_node_locked host req)
unfolding move_node_locked
move_node-Atomic host req = search (atomic_rules, unless_refused-Atomic, move_fresh-Atomic) depth 10

undo_fresh-Atomic :
    (host : Host) (req : UndoRequest) (e : Event) → Atomic host (undo_fresh host req e)
unfolding undo_fresh
undo_fresh-Atomic host req e =
    search (atomic_rules, body_rules, undo_step-Keeps {P = IsSound} Sound-Preserves.by_statement)
      depth 16

pub undo-Atomic : (host : Host) (req : UndoRequest) → Atomic host (undo_locked host req)
unfolding undo_locked
undo-Atomic host req = search (atomic_rules, undo_fresh-Atomic) depth 10
