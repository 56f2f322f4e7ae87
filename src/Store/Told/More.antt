-- ===== src/Store/Told/More.antt =====
-- flowcore/src/store.rs: what the reports, verdicts and comments and an undo append is in their mutations.
use flowcontrol.Common.{List}
use flowcontrol.Schema.{Db, Host}
use flowcontrol.Message.{
  Event, Node, ReportConditionRequest, SetVerdictRequest, AddCommentRequest, UndoRequest,
}
use flowcontrol.Store.Keeps.{Keeps}
use flowcontrol.Store.Keeps.Undo.{undo_step-Keeps}
use flowcontrol.Store.Told.{Known, Known-statement}
use flowcontrol.Store.Told.Reports.{Reports, Reports-Tells}
use flowcontrol.Store.Told.Helpers.{events_of, tell_rules, report_rules}
use flowcontrol.Store.Reports.{
  report_fresh, report_condition_locked, verdict_fresh, set_verdict_locked, comment_fresh,
  add_comment_locked,
}
use flowcontrol.Store.Undo.{undo_step, undo_fresh, undo_locked}

report_fresh-Reports :
    (host : Host) (req : ReportConditionRequest) (current : Node)
    → Reports (report_fresh host req current) events_of
unfolding report_fresh
report_fresh-Reports host req current =
    Reports-Tells current.project_id _ _ (search tell_rules depth 20)

pub report_condition-Reports :
    (host : Host) (req : ReportConditionRequest)
    → Reports (report_condition_locked host req) events_of
unfolding report_condition_locked
report_condition-Reports host req = search (report_rules, report_fresh-Reports) depth 9

verdict_fresh-Reports :
    (host : Host) (req : SetVerdictRequest) (current : Node)
    → Reports (verdict_fresh host req current) events_of
unfolding verdict_fresh
verdict_fresh-Reports host req current =
    Reports-Tells current.project_id _ _ (search tell_rules depth 20)

pub set_verdict-Reports :
    (host : Host) (req : SetVerdictRequest) → Reports (set_verdict_locked host req) events_of
unfolding set_verdict_locked
set_verdict-Reports host req = search (report_rules, verdict_fresh-Reports) depth 9

comment_fresh-Reports :
    (host : Host) (req : AddCommentRequest) (current : Node)
    → Reports (comment_fresh host req current) events_of
unfolding comment_fresh
comment_fresh-Reports host req current =
    Reports-Tells current.project_id _ _ (search tell_rules depth 20)

pub add_comment-Reports :
    (host : Host) (req : AddCommentRequest) → Reports (add_comment_locked host req) events_of
unfolding add_comment_locked
add_comment-Reports host req = search (report_rules, comment_fresh-Reports) depth 9

undo_step-Known :
    (host : Host) (e : Event) (base : Db) (told : List Event)
    → Keeps (Known base told) (undo_step host e)
undo_step-Known host e base told = undo_step-Keeps (Known-statement base told) host e

undo_fresh-Reports :
    (host : Host) (req : UndoRequest) (e : Event) → Reports (undo_fresh host req e) events_of
unfolding undo_fresh
undo_fresh-Reports host req e =
    Reports-Tells e.project_id _ _ (search (tell_rules, undo_step-Known) depth 20)

pub undo-Reports : (host : Host) (req : UndoRequest) → Reports (undo_locked host req) events_of
unfolding undo_locked
undo-Reports host req = search (report_rules, undo_fresh-Reports) depth 9
