-- ===== src/Store/Told/Requests.antt =====
-- flowcore/src/store.rs: what a request appends to the log is in its answer, through `dispatch`.
use flowcontrol.Common.{none, List, [], ◌≡◌, refl, ◌⊎◌, inl, inr, sym, subst, Among, String}
use flowcontrol.Error.{DomainError}
use flowcontrol.Schema.{Db, Host, EventRow}
use flowcontrol.Sql.{done, fail}
use flowcontrol.Message.{Event}
use flowcontrol.Statement.{Conn, Session}
use flowcontrol.Store.Keeps.{after, Saved, On, Keeps}
use flowcontrol.Store.Keeps.Projects.{
  create_project-Keeps, update_project-Keeps, archive_project-Keeps,
}
use flowcontrol.Store.Keeps.Dispatch.{
  list_projects-Keeps, get_snapshot-Keeps, list_events-Keeps, search_nodes-Keeps,
  poll_changes-Keeps, answer_as-Keeps,
}
use flowcontrol.Store.Invariant.Rows.{IsSound}
use flowcontrol.Store.Atomic.Requests.{Mutates, dispatch-fails}
use flowcontrol.Store.Reads.Faithful.{event_message}
use flowcontrol.Store.Dispatch.{
  Request, Answer, mutation, answer_as, dispatch, list_projects, get_snapshot, list_events,
  search_nodes, poll_changes, create_node, update_node, delete_node, set_status, add_dependency,
  remove_dependency, report_condition, set_verdict, add_comment, undo, move_node, create_project,
  update_project, archive_project,
}
use flowcontrol.Store.Told.{Known, Known-statement, Of}
use flowcontrol.Store.Told.Reports.{Reported, Reports, Reports-none, Reports-map}
use flowcontrol.Store.Told.Operations.{
  create_node-Reports, update_node-Reports, set_status-Reports, add_dependency-Reports,
  remove_dependency-Reports,
}
use flowcontrol.Store.Told.More.{
  report_condition-Reports, set_verdict-Reports, add_comment-Reports, undo-Reports,
}
use flowcontrol.Store.Told.Removal.{delete_node-Reports, move_node-Reports}

-- The events of an answer.
abbrev pub told_of : Answer → List Event
told_of (mutation m) = m.events
told_of _ = []

answer_none :
    {A : Type 0} (f : A → Answer) (m : Session A)
    → ((a : A) → told_of (f a) ≡ [])
    → ((base : Db) → Keeps (Known base []) m)
    → Reports (answer_as f m) told_of
answer_none f m q km = Reports-map m f told_of (Reports-none m _ km q)

dispatch-Reports : (host : Host) (req : Request) → Reports (dispatch host req) told_of
unfolding dispatch
dispatch-Reports host (list_projects archived) =
    answer_none _ _ (λ a. refl) (λ b. list_projects-Keeps archived)
dispatch-Reports host (get_snapshot id) = answer_none _ _ (λ a. refl) (λ b. get_snapshot-Keeps id)
dispatch-Reports host (list_events id node before limit) =
    answer_none _ _ (λ a. refl) (λ b. list_events-Keeps id node before limit)
dispatch-Reports host (search_nodes id query limit) =
    answer_none _ _ (λ a. refl) (λ b. search_nodes-Keeps host id query limit)
dispatch-Reports host (poll_changes id since limit) =
    answer_none _ _ (λ a. refl) (λ b. poll_changes-Keeps id since limit)
dispatch-Reports host (create_node r) = Reports-map _ mutation told_of (create_node-Reports host r)
dispatch-Reports host (update_node r) = Reports-map _ mutation told_of (update_node-Reports host r)
dispatch-Reports host (delete_node r) = Reports-map _ mutation told_of (delete_node-Reports host r)
dispatch-Reports host (set_status r) = Reports-map _ mutation told_of (set_status-Reports host r)
dispatch-Reports host (add_dependency r) =
    Reports-map _ mutation told_of (add_dependency-Reports host r)
dispatch-Reports host (remove_dependency r) =
    Reports-map _ mutation told_of (remove_dependency-Reports host r)
dispatch-Reports host (report_condition r) =
    Reports-map _ mutation told_of (report_condition-Reports host r)
dispatch-Reports host (set_verdict r) = Reports-map _ mutation told_of (set_verdict-Reports host r)
dispatch-Reports host (add_comment r) = Reports-map _ mutation told_of (add_comment-Reports host r)
dispatch-Reports host (undo r) = Reports-map _ mutation told_of (undo-Reports host r)
dispatch-Reports host (move_node r) = Reports-map _ mutation told_of (move_node-Reports host r)
dispatch-Reports host (create_project r) =
    answer_none _ _ (λ a. refl) (λ b. create_project-Keeps (Known-statement b []) host r)
dispatch-Reports host (update_project r) =
    answer_none _ _ (λ a. refl) (λ b. update_project-Keeps (Known-statement b []) host r)
dispatch-Reports host (archive_project r) =
    answer_none _ _ (λ a. refl) (λ b. archive_project-Keeps (Known-statement b []) host r)

-- What is known when no transaction is open.
nothing_told : (c : Conn) → c.saved ≡ none → On (Known c.db []) c
nothing_told c s = record {
  now = record { each = λ e a. inl a };
  before = subst (Saved (Known c.db [])) (sym s) tt;
}

-- On a session with no open transaction, a request that succeeds answers with every event that it adds
-- to the log, and all the events of an answer are of one project.
pub dispatch-tells :
    (host : Host) (req : Request) (c c' : Conn) (a : Answer)
    → c.saved ≡ none
    → dispatch host req c ≡ done a c'
    → ((p : String) × Of p (told_of a))
      × ((e : EventRow)
          → Among e c'.db.events
          → Among e c.db.events ⊎ Among (event_message e) (told_of a))
dispatch-tells host req c c' a s p =
    let r =
      subst (Reported c.db told_of) p ((dispatch-Reports host req).at c.db c (nothing_told c s)) in
    (r.0, r.1.now.each)

silent_after :
    {A : Type 0} (f : A → Answer) (m : Session A) (c : Conn)
    → c.saved ≡ none
    → Keeps (Known c.db []) m
    → On (Known c.db []) (after (answer_as f m c))
silent_after f m c s km = (answer_as-Keeps f m km).at c (nothing_told c s)

-- A request mutates, or adds no event whatever its end.
kind_of_request :
    (req : Request)
    → Mutates req
      ⊎ ((host : Host) (c : Conn)
          → c.saved ≡ none
          → On (Known c.db []) (after (dispatch host req c)))
unfolding dispatch
kind_of_request (list_projects archived) =
    inr (λ host c s. silent_after _ _ c s (list_projects-Keeps archived))
kind_of_request (get_snapshot id) = inr (λ host c s. silent_after _ _ c s (get_snapshot-Keeps id))
kind_of_request (list_events id node before limit) =
    inr (λ host c s. silent_after _ _ c s (list_events-Keeps id node before limit))
kind_of_request (search_nodes id query limit) =
    inr (λ host c s. silent_after _ _ c s (search_nodes-Keeps host id query limit))
kind_of_request (poll_changes id since limit) =
    inr (λ host c s. silent_after _ _ c s (poll_changes-Keeps id since limit))
kind_of_request (create_project r) =
    inr (λ host c s. silent_after _ _ c s (create_project-Keeps (Known-statement c.db []) host r))
kind_of_request (update_project r) =
    inr (λ host c s. silent_after _ _ c s (update_project-Keeps (Known-statement c.db []) host r))
kind_of_request (archive_project r) =
    inr (λ host c s. silent_after _ _ c s (archive_project-Keeps (Known-statement c.db []) host r))
kind_of_request _ = inl tt

-- What a request that fails leaves, on sound rows, unless a COMMIT was refused: nothing that was not
-- known.
pub failed-Known :
    (host : Host) (req : Request) (c c' : Conn) (x : DomainError)
    → c.saved ≡ none
    → c'.saved ≡ none
    → IsSound c.db
    → dispatch host req c ≡ fail x c'
    → On (Known c.db []) c'
failed-Known host req c c' x s s' h p = elim (kind_of_request req) [
  | inl w ↦ elim (dispatch-fails host req c c' x w s h p) [
    | inl same ↦ subst (On (Known c.db [])) (sym same) (nothing_told c s)
    | inr refused ↦ absurd (cc (s', refused.still_open))
  ]
  | inr k ↦ subst (λ r. On (Known c.db []) (after r)) p (k host c s)
]
