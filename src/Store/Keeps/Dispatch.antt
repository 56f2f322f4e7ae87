-- ===== src/Store/Keeps/Dispatch.antt =====
-- Invariants over the dispatch of flowcore/src/store.rs and over histories of requests to it.
use flowcontrol.Common.{ℤ, Bool, String, List, [], ◌∷◌}
use flowcontrol.Schema.{Db, Host, EventRow, NodeRow}
use flowcontrol.Sql.{◌>>=◌, pure}
use flowcontrol.Message.{Node}
use flowcontrol.Statement.{Conn, Session}
use flowcontrol.Store.Keeps.{On, Preserves, Keeps, Keeps-pure, Keeps-bind}
use flowcontrol.Store.Keeps.Helpers.{read_rules, verification_for-Keeps, progress_for-Keeps}
use flowcontrol.Store.Keeps.Operations.{
  create_node-Keeps, update_node-Keeps, delete_node-Keeps, set_status-Keeps, add_dependency-Keeps,
  remove_dependency-Keeps,
}
use flowcontrol.Store.Keeps.More.{
  report_condition-Keeps, set_verdict-Keeps, add_comment-Keeps, move_node-Keeps,
}
use flowcontrol.Store.Keeps.Undo.{undo-Keeps}
use flowcontrol.Store.Keeps.Projects.{
  create_project-Keeps, update_project-Keeps, archive_project-Keeps,
}
use flowcontrol.Store.Queries.{
  list_projects_locked, with_verifications, to_nodes, to_events, poll_changes_locked,
  list_events_locked, search_locked, get_snapshot_locked,
}
use flowcontrol.Store.Dispatch.{
  Request, list_projects, get_snapshot, list_events, search_nodes, poll_changes, create_node,
  update_node, delete_node, set_status, add_dependency, remove_dependency, report_condition,
  set_verdict, add_comment, undo, move_node, create_project, update_project, archive_project,
  Answer, answer_as, dispatch, serve, run,
}

module _ {P : Db → Type 0} where
  with_verifications-Keeps : (ns : List Node) → Keeps P (with_verifications ns)
  unfolding with_verifications
  with_verifications-Keeps [] = Keeps-pure []
  with_verifications-Keeps (n ∷ ns) =
      Keeps-bind _
        (λ v. with_verifications ns >>= λ rest. pure (record n { verification = v } ∷ rest))
        (verification_for-Keeps n.id)
        (λ v.
          Keeps-bind _ (λ rest. pure (record n { verification = v } ∷ rest))
            (with_verifications-Keeps ns) (λ rest. Keeps-pure _))

  to_nodes-Keeps : (d : Db) (rows : List NodeRow) → Keeps P (to_nodes d rows)
  unfolding to_nodes
  to_nodes-Keeps d rows = search (read_rules, with_verifications-Keeps)

  to_events-Keeps : (rows : List EventRow) → Keeps P (to_events rows)
  unfolding to_events
  to_events-Keeps rows = search read_rules

  pub list_projects-Keeps : (archived : Bool) → Keeps P (list_projects_locked archived)
  unfolding list_projects_locked
  list_projects-Keeps archived = search read_rules

  pub get_snapshot-Keeps : (id : String) → Keeps P (get_snapshot_locked id)
  unfolding get_snapshot_locked
  get_snapshot-Keeps id = search (read_rules, to_nodes-Keeps, progress_for-Keeps) depth 9

  pub list_events-Keeps :
      (id node : String) (before limit : ℤ) → Keeps P (list_events_locked id node before limit)
  unfolding list_events_locked
  list_events-Keeps id node before limit = search read_rules

  pub search_nodes-Keeps :
      (host : Host) (id query : String) (limit : ℤ) → Keeps P (search_locked host id query limit)
  unfolding search_locked
  search_nodes-Keeps host id query limit = search (read_rules, to_nodes-Keeps)

  pub poll_changes-Keeps :
      (id : String) (since limit : ℤ) → Keeps P (poll_changes_locked id since limit)
  unfolding poll_changes_locked
  poll_changes-Keeps id since limit = search read_rules

  pub answer_as-Keeps {ℓ} :
      {A : Type ℓ} (f : A → Answer) (m : Session A) → Keeps P m → Keeps P (answer_as f m)
  answer_as-Keeps f m km = Keeps-bind m (λ a. pure (f a)) km (λ a. Keeps-pure _)

module _ {P : Db → Type 0} (keep : Preserves P) where
  pub dispatch-Keeps : (host : Host) (r : Request) → Keeps P (dispatch host r)
  unfolding dispatch
  dispatch-Keeps host (list_projects archived) = answer_as-Keeps _ _ (list_projects-Keeps archived)
  dispatch-Keeps host (get_snapshot id) = answer_as-Keeps _ _ (get_snapshot-Keeps id)
  dispatch-Keeps host (list_events id node before limit) =
      answer_as-Keeps _ _ (list_events-Keeps id node before limit)
  dispatch-Keeps host (search_nodes id query limit) =
      answer_as-Keeps _ _ (search_nodes-Keeps host id query limit)
  dispatch-Keeps host (poll_changes id since limit) =
      answer_as-Keeps _ _ (poll_changes-Keeps id since limit)
  dispatch-Keeps host (create_node r) = answer_as-Keeps _ _ (create_node-Keeps keep host r)
  dispatch-Keeps host (update_node r) = answer_as-Keeps _ _ (update_node-Keeps keep host r)
  dispatch-Keeps host (delete_node r) = answer_as-Keeps _ _ (delete_node-Keeps keep host r)
  dispatch-Keeps host (set_status r) = answer_as-Keeps _ _ (set_status-Keeps keep host r)
  dispatch-Keeps host (add_dependency r) = answer_as-Keeps _ _ (add_dependency-Keeps keep host r)
  dispatch-Keeps host (remove_dependency r) =
      answer_as-Keeps _ _ (remove_dependency-Keeps keep host r)
  dispatch-Keeps host (report_condition r) =
      answer_as-Keeps _ _ (report_condition-Keeps keep host r)
  dispatch-Keeps host (set_verdict r) = answer_as-Keeps _ _ (set_verdict-Keeps keep host r)
  dispatch-Keeps host (add_comment r) = answer_as-Keeps _ _ (add_comment-Keeps keep host r)
  dispatch-Keeps host (undo r) = answer_as-Keeps _ _ (undo-Keeps keep host r)
  dispatch-Keeps host (move_node r) = answer_as-Keeps _ _ (move_node-Keeps keep host r)
  dispatch-Keeps host (create_project r) =
      answer_as-Keeps _ _ (create_project-Keeps keep.by_statement host r)
  dispatch-Keeps host (update_project r) =
      answer_as-Keeps _ _ (update_project-Keeps keep.by_statement host r)
  dispatch-Keeps host (archive_project r) =
      answer_as-Keeps _ _ (archive_project-Keeps keep.by_statement host r)

  serve-Preserves : (c : Conn) (r : Host × Request) → On P c → On P (serve c r)
  unfolding serve
  serve-Preserves c (host, r) h = (dispatch-Keeps host r).at c h

  -- An invariant that every statement keeps holds after any history of requests, whatever failed.
  pub run-Preserves : (rs : List (Host × Request)) (c : Conn) → On P c → On P (run c rs)
  unfolding run
  run-Preserves [] c h = h
  run-Preserves (r ∷ rs) c h = run-Preserves rs (serve c r) (serve-Preserves c r h)
