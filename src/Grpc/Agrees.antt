-- ===== src/Grpc/Agrees.antt =====
-- flowd/src/grpc/mod.rs: the service's unary methods against `dispatch` of flowcore/src/store.rs. Each
-- answers as `dispatch` does, leaves the connection as it does, and sends the mutation to the watchers.
use flowcontrol.Common.{false, some, List, ◌≡◌, refl, sym}
use flowcontrol.Schema.{Host}
use flowcontrol.Sql.{Outcome, done, fail, continue, pure}
use flowcontrol.Message.{Mutation}
use flowcontrol.Statement.{Conn}
use flowcontrol.Native.{NativeStore, Notified, returns, publish, published, result_of, conn_of}
use flowcontrol.Grpc.{Reply, response, status, into_status}
use flowcontrol.Grpc.Unary
use flowcontrol.Grpc.Unary.{Handler, reply_of}
use flowcontrol.Store.Dispatch.{
  Request, Answer, projects, snapshot, events, nodes, changes, mutation, project, dispatch,
  list_projects, get_snapshot, list_events, search_nodes, poll_changes, create_node, update_node,
  delete_node, set_status, add_dependency, remove_dependency, report_condition, set_verdict,
  add_comment, undo, move_node, create_project, update_project, archive_project,
}
use flowcontrol.Store.Responses.{
  Response, content, projects_listed, snapshot_taken, events_listed, nodes_found, changes_polled,
  node_created, node_updated, node_deleted, status_set, dependency_added, dependency_removed,
  condition_reported, verdict_set, comment_added, undone, node_moved, project_created,
  project_updated, project_archived,
}
use flowcontrol.Store.Nodes.{create_node_locked, update_node_locked}
use flowcontrol.Store.Delete.{delete_node_locked, set_status_locked}
use flowcontrol.Store.Edges.{add_dependency_locked, remove_dependency_locked}
use flowcontrol.Store.Reports.{report_condition_locked, set_verdict_locked, add_comment_locked}
use flowcontrol.Store.Moves.{move_node_locked}
use flowcontrol.Store.Undo.{undo_locked}
use flowcontrol.Store.Projects.{
  create_project_locked, update_project_locked, archive_project_locked,
}
use flowcontrol.Store.Queries.{
  list_projects_locked, get_snapshot_locked, list_events_locked, search_locked, poll_changes_locked,
}

abbrev pub map_reply : {A B : Type 0} → (A → B) → Reply A → Reply B
map_reply f (response a) = response (f a)
map_reply f (status t) = status t

abbrev pub into : {A : Type 0} → (A → Response) → Handler A → Handler Response
into f m fate s = let (r, s') = m fate s in (map_reply f r, s')

-- The handler of a request's method.
unfoldable pub unary : Host → Request → Handler Response
unfolding Unary.list_projects Unary.get_snapshot Unary.list_events Unary.search_nodes
    Unary.poll_changes Unary.create_node Unary.update_node Unary.delete_node Unary.set_status
    Unary.add_dependency Unary.remove_dependency Unary.report_condition Unary.set_verdict
    Unary.add_comment Unary.undo Unary.move_node Unary.create_project Unary.update_project
    Unary.archive_project
unary host (list_projects archived) =
    into projects_listed (Unary.list_projects (record { include_archived = archived }))
unary host (get_snapshot id) = into snapshot_taken (Unary.get_snapshot (record { project_id = id }))
unary host (list_events id node before limit) = into events_listed (
    Unary.list_events
      (record { project_id = id; node_id = node; before_seq = before; limit = limit }))
unary host (search_nodes id query limit) =
    into nodes_found
      (Unary.search_nodes host (record { project_id = id; query = query; limit = limit }))
unary host (poll_changes id since limit) =
    into changes_polled
      (Unary.poll_changes (record { project_id = id; after_seq = since; limit = limit }))
unary host (create_node r) = into node_created (Unary.create_node host r)
unary host (update_node r) = into node_updated (Unary.update_node host r)
unary host (delete_node r) = into node_deleted (Unary.delete_node host r)
unary host (set_status r) = into status_set (Unary.set_status host r)
unary host (add_dependency r) = into dependency_added (Unary.add_dependency host r)
unary host (remove_dependency r) = into dependency_removed (Unary.remove_dependency host r)
unary host (report_condition r) = into condition_reported (Unary.report_condition host r)
unary host (set_verdict r) = into verdict_set (Unary.set_verdict host r)
unary host (add_comment r) = into comment_added (Unary.add_comment host r)
unary host (undo r) = into undone (Unary.undo host r)
unary host (move_node r) = into node_moved (Unary.move_node host r)
unary host (create_project r) = into project_created (Unary.create_project host r)
unary host (update_project r) = into project_updated (Unary.update_project host r)
unary host (archive_project r) = into project_archived (Unary.archive_project host r)

-- The store after an answer: a mutation is published.
abbrev pub told : Answer → NativeStore → NativeStore
told (mutation m) s = publish m s
told _ s = s

-- A store whose mutex is not poisoned.
abbrev pub live : Conn → List Notified → NativeStore
live c out = record { conn = c; poisoned = false; sent = out }

-- A reply and the store that it leaves, against an outcome on the connection alone.
abbrev pub Agrees : List Notified → Reply Response × NativeStore → Outcome Conn Answer → Type 0
Agrees out (response r, s) (done a c) = (content r ≡ some a) × (s ≡ told a (live c out))
Agrees out (status t, s) (fail e c) = (t ≡ into_status e) × (s ≡ live c out)
Agrees out _ _ = ⊥

module _ {A B : Type 0} (f : A → B) (k : B → Response) (g : A → Answer) (out : List Notified) where
  offloaded-Agrees :
      ((a : A) → content (k (f a)) ≡ some (g a))
      → ((a : A) (s : NativeStore) → told (g a) s ≡ s)
      → (r : Outcome Conn A)
      → Agrees out
          (map_reply k (reply_of f (result_of r)), live (conn_of r) out)
          (continue r (λ a. pure (g a)))
  offloaded-Agrees h q (done a c) = (h a, sym (q a (live c out)))
  offloaded-Agrees h q (fail e c) = (refl, refl)

written-Agrees :
    {B : Type 0} (f : Mutation → B) (k : B → Response) (out : List Notified)
    → ((m : Mutation) → content (k (f m)) ≡ some (mutation m))
    → (r : Outcome Conn Mutation)
    → Agrees out
        (
          map_reply k (reply_of f (published (result_of r, live (conn_of r) out)).0),
          (published (result_of r, live (conn_of r) out)).1,
        )
        (continue r (λ m. pure (mutation m)))
written-Agrees f k out h (done m c) = (h m, refl)
written-Agrees f k out h (fail e c) = (refl, refl)

-- On a store whose mutex is not poisoned, the service answers a unary request with what `dispatch` returns
-- on its connection, or with its error as a status; it leaves the connection as `dispatch` does, and
-- publishes the mutation of a write and nothing else.
pub unary-Agrees :
    (host : Host) (req : Request) (c : Conn) (out : List Notified)
    → Agrees out (unary host req returns (live c out)) (dispatch host req c)
unfolding unary dispatch
unary-Agrees host (list_projects archived) c out =
    offloaded-Agrees (λ a. record { projects = a }) projects_listed (projects) out (λ a. refl)
      (λ a s. refl) (list_projects_locked archived c)
unary-Agrees host (get_snapshot id) c out =
    offloaded-Agrees (λ a. a) snapshot_taken (snapshot) out (λ a. refl) (λ a s. refl)
      (get_snapshot_locked id c)
unary-Agrees host (list_events id node before limit) c out =
    offloaded-Agrees (λ a. record { events = a.0; has_more = a.1 }) events_listed
      (λ p. events p.0 p.1) out (λ a. refl) (λ a s. refl)
      (list_events_locked id node before limit c)
unary-Agrees host (search_nodes id query limit) c out =
    offloaded-Agrees (λ a. record { nodes = a }) nodes_found (nodes) out (λ a. refl) (λ a s. refl)
      (search_locked host id query limit c)
unary-Agrees host (poll_changes id since limit) c out =
    offloaded-Agrees (λ a. a) changes_polled (changes) out (λ a. refl) (λ a s. refl)
      (poll_changes_locked id since limit c)
unary-Agrees host (create_node r) c out =
    written-Agrees (λ m. record { mutation = some m }) node_created out (λ m. refl)
      (create_node_locked host r c)
unary-Agrees host (update_node r) c out =
    written-Agrees (λ m. record { mutation = some m }) node_updated out (λ m. refl)
      (update_node_locked host r c)
unary-Agrees host (delete_node r) c out =
    written-Agrees (λ m. record { mutation = some m }) node_deleted out (λ m. refl)
      (delete_node_locked host r c)
unary-Agrees host (set_status r) c out =
    written-Agrees (λ m. record { mutation = some m }) status_set out (λ m. refl)
      (set_status_locked host r c)
unary-Agrees host (add_dependency r) c out =
    written-Agrees (λ m. record { mutation = some m }) dependency_added out (λ m. refl)
      (add_dependency_locked host r c)
unary-Agrees host (remove_dependency r) c out =
    written-Agrees (λ m. record { mutation = some m }) dependency_removed out (λ m. refl)
      (remove_dependency_locked host r c)
unary-Agrees host (report_condition r) c out =
    written-Agrees (λ m. record { mutation = some m }) condition_reported out (λ m. refl)
      (report_condition_locked host r c)
unary-Agrees host (set_verdict r) c out =
    written-Agrees (λ m. record { mutation = some m }) verdict_set out (λ m. refl)
      (set_verdict_locked host r c)
unary-Agrees host (add_comment r) c out =
    written-Agrees (λ m. record { mutation = some m }) comment_added out (λ m. refl)
      (add_comment_locked host r c)
unary-Agrees host (undo r) c out =
    written-Agrees (λ m. record { mutation = some m }) undone out (λ m. refl) (undo_locked host r c)
unary-Agrees host (move_node r) c out =
    written-Agrees (λ m. record { mutation = some m }) node_moved out (λ m. refl)
      (move_node_locked host r c)
unary-Agrees host (create_project r) c out =
    offloaded-Agrees (λ a. record { project = some a }) project_created (project) out (λ a. refl)
      (λ a s. refl) (create_project_locked host r c)
unary-Agrees host (update_project r) c out =
    offloaded-Agrees (λ a. record { project = some a }) project_updated (project) out (λ a. refl)
      (λ a s. refl) (update_project_locked host r c)
unary-Agrees host (archive_project r) c out =
    offloaded-Agrees (λ a. record { project = some a }) project_archived (project) out (λ a. refl)
      (λ a s. refl) (archive_project_locked host r c)
