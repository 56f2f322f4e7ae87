-- ===== src/Store/Keeps/More.antt =====
-- Invariants over the reports, verdicts, comments and moves of flowcore/src/store.rs.
use flowcontrol.Common.{Bool, true, false, String, Option, none, some, List, [], ◌∷◌, ◌++◌}
use flowcontrol.Schema.{Db, Host}
use flowcontrol.Message.{
  Node, Mutation, ReportConditionRequest, SetVerdictRequest, AddCommentRequest, MoveNodeRequest,
}
use flowcontrol.Statement.{Session}
use flowcontrol.Store.Keeps.Operations.{log_drop-Keeps}
use flowcontrol.Sql.{◌>>=◌, pure}
use flowcontrol.Store.Keeps.{
  Preserves, ByStatement, Keeps, Keeps-pure, Keeps-raise, Keeps-bind, Keeps-execute,
}
use flowcontrol.Store.Keeps.Helpers.{read_rules, append_event-Keeps, record_idempotency-Keeps}
use flowcontrol.Store.Reports.{
  report_fresh, report_condition_locked, verdict_fresh, set_verdict_locked, comment_fresh,
  add_comment_locked,
}
use flowcontrol.Store.Moves.{
  drop_child, drop_children, drop_if_demoted, clear_if, move_fresh, unless_refused,
  move_node_locked,
}

module _ {P : Db → Type 0} (keep : ByStatement P) where
  pub clear_if-Keeps : (host : Host) (id : String) (b : Bool) → Keeps P (clear_if host id b)
  unfolding clear_if
  clear_if-Keeps host id false = Keeps-pure tt
  clear_if-Keeps host id true = Keeps-execute keep host _

module _ {P : Db → Type 0} (keep : Preserves P) where
  report_fresh-Keeps :
      (host : Host) (req : ReportConditionRequest) (current : Node)
      → Keeps P (report_fresh host req current)
  unfolding report_fresh
  report_fresh-Keeps host req current =
      search
        (
          read_rules,
          Keeps-execute keep.by_statement,
          append_event-Keeps keep,
          record_idempotency-Keeps keep.by_statement,
        )
        depth 14

  pub report_condition-Keeps :
      (host : Host) (req : ReportConditionRequest) → Keeps P (report_condition_locked host req)
  unfolding report_condition_locked
  report_condition-Keeps host req = search (read_rules, report_fresh-Keeps) depth 8

  verdict_fresh-Keeps :
      (host : Host) (req : SetVerdictRequest) (current : Node)
      → Keeps P (verdict_fresh host req current)
  unfolding verdict_fresh
  verdict_fresh-Keeps host req current =
      search
        (
          read_rules,
          Keeps-execute keep.by_statement,
          append_event-Keeps keep,
          record_idempotency-Keeps keep.by_statement,
        )
        depth 12

  pub set_verdict-Keeps :
      (host : Host) (req : SetVerdictRequest) → Keeps P (set_verdict_locked host req)
  unfolding set_verdict_locked
  set_verdict-Keeps host req = search (read_rules, verdict_fresh-Keeps) depth 8

  comment_fresh-Keeps :
      (host : Host) (req : AddCommentRequest) (current : Node)
      → Keeps P (comment_fresh host req current)
  unfolding comment_fresh
  comment_fresh-Keeps host req current =
      search (read_rules, append_event-Keeps keep, record_idempotency-Keeps keep.by_statement) depth
        12

  pub add_comment-Keeps :
      (host : Host) (req : AddCommentRequest) → Keeps P (add_comment_locked host req)
  unfolding add_comment_locked
  add_comment-Keeps host req = search (read_rules, comment_fresh-Keeps) depth 8

  drop_child-Keeps :
      (host : Host) (project author id : String) → Keeps P (drop_child host project author id)
  unfolding drop_child
  drop_child-Keeps host project author id =
      search (read_rules, log_drop-Keeps keep, Keeps-execute keep.by_statement) depth 8

  drop_children-Keeps :
      (host : Host) (project author : String) (ids : List String)
      → Keeps P (drop_children host project author ids)
  unfolding drop_children
  drop_children-Keeps host project author [] = Keeps-pure _
  drop_children-Keeps host project author (id ∷ ids) =
      Keeps-bind _
        (λ one.
          drop_children host project author ids >>= λ rest. pure (one.0 ++ rest.0, one.1 ∷ rest.1))
        (drop_child-Keeps host project author id)
        (λ one.
          Keeps-bind _ (λ rest. pure (one.0 ++ rest.0, one.1 ∷ rest.1))
            (drop_children-Keeps host project author ids) (λ rest. Keeps-pure _))

  pub drop_if_demoted-Keeps :
      (host : Host) (req : MoveNodeRequest) (current : Node) (b : Bool)
      → Keeps P (drop_if_demoted host req current b)
  unfolding drop_if_demoted
  drop_if_demoted-Keeps host req current false = Keeps-pure _
  drop_if_demoted-Keeps host req current true = search (read_rules, drop_children-Keeps)

  move_fresh-Keeps :
      (host : Host) (req : MoveNodeRequest) (current : Node) → Keeps P (move_fresh host req current)
  unfolding move_fresh
  move_fresh-Keeps host req current =
      search
        (
          read_rules,
          drop_if_demoted-Keeps,
          clear_if-Keeps keep.by_statement,
          Keeps-execute keep.by_statement,
          append_event-Keeps keep,
          record_idempotency-Keeps keep.by_statement,
        )
        depth 16

  unless_refused-Keeps :
      (o : Option String) (m : Session Mutation) → Keeps P m → Keeps P (unless_refused o m)
  unless_refused-Keeps none m km = km
  unless_refused-Keeps (some message) m km = Keeps-raise _

  pub move_node-Keeps : (host : Host) (req : MoveNodeRequest) → Keeps P (move_node_locked host req)
  unfolding move_node_locked
  move_node-Keeps host req = search (read_rules, unless_refused-Keeps, move_fresh-Keeps) depth 9
