-- ===== src/Store/Told/Operations.antt =====
-- flowcore/src/store.rs: what the operations that append one event append is in their mutations.
use flowcontrol.Common.{ℤ, String, Option, none, some, List, refl}
use flowcontrol.Schema.{Db, Host}
use flowcontrol.Sql.{pure}
use flowcontrol.Message.{
  Event, Node, CreateNodeRequest, UpdateNodeRequest, SetStatusRequest, AddDependencyRequest,
  RemoveDependencyRequest,
}
use flowcontrol.Store.Keeps.{Keeps}
use flowcontrol.Store.Keeps.Operations.{each-Keeps, update_field-Keeps}
use flowcontrol.Store.Told.{Known, Known-statement}
use flowcontrol.Store.Told.Reports.{Reports, Reports-Tells, Reports-read, Reports-pure}
use flowcontrol.Store.Delete.{set_status_fresh, set_status_locked}
use flowcontrol.Store.Nodes.{
  create_fresh, create_or_replay, replay_create, create_node_locked, update_field, update_fresh,
  update_node_locked,
}
use flowcontrol.Store.Edges.{
  add_fresh, add_dependency_locked, remove_fresh, remove_dependency_locked,
}
use flowcontrol.Store.Keeps.Helpers.{fetch_node-Keeps}
use flowcontrol.Store.Reads.{IdemHit}
use flowcontrol.Store.Told.Helpers.{events_of, tell_rules, report_rules}
use flowcontrol.Store.Nodes.{replay_node}

create_fresh-Reports :
    (host : Host) (req : CreateNodeRequest) → Reports (create_fresh host req) events_of
unfolding create_fresh
create_fresh-Reports host req = Reports-Tells req.project_id _ _ (search tell_rules depth 20)

set_status_fresh-Reports :
    (host : Host) (req : SetStatusRequest) (current : Node)
    → Reports (set_status_fresh host req current) events_of
unfolding set_status_fresh
set_status_fresh-Reports host req current =
    Reports-Tells current.project_id _ _ (search tell_rules depth 20)

field-Known :
    (host : Host) (req : UpdateNodeRequest) (f : String) (base : Db) (told : List Event)
    → Keeps (Known base told) (update_field host req f)
field-Known host req f base told = update_field-Keeps (Known-statement base told) host req f

update_fresh-Reports :
    (host : Host) (req : UpdateNodeRequest) (project : String)
    → Reports (update_fresh host req project) events_of
unfolding update_fresh
update_fresh-Reports host req project =
    Reports-Tells project _ _ (search (tell_rules, each-Keeps, field-Known) depth 20)

add_fresh-Reports :
    (host : Host) (req : AddDependencyRequest) (project : String)
    → Reports (add_fresh host req project) events_of
unfolding add_fresh
add_fresh-Reports host req project = Reports-Tells project _ _ (search tell_rules depth 20)

remove_fresh-Reports :
    (host : Host) (req : RemoveDependencyRequest) (project : String)
    → Reports (remove_fresh host req project) events_of
unfolding remove_fresh
remove_fresh-Reports host req project = Reports-Tells project _ _ (search tell_rules depth 20)

replay_create-Reports : (seq : ℤ) (id : Option String) → Reports (replay_create seq id) events_of
unfolding replay_create
replay_create-Reports seq none = Reports-pure _ _ refl
replay_create-Reports seq (some id) =
    Reports-read _ _ _ (λ b. fetch_node-Keeps id) (λ n. replayed n)
  where
    replayed : (n : Option Node) → Reports (pure (replay_node seq n)) events_of
    replayed none = Reports-pure _ _ refl
    replayed (some n) = Reports-pure _ _ refl

create_or_replay-Reports :
    (host : Host) (req : CreateNodeRequest) (hit : Option IdemHit)
    → Reports (create_or_replay host req hit) events_of
unfolding create_or_replay
create_or_replay-Reports host req none = create_fresh-Reports host req
create_or_replay-Reports host req (some hit) = replay_create-Reports hit.seq hit.entity_id

pub create_node-Reports :
    (host : Host) (req : CreateNodeRequest) → Reports (create_node_locked host req) events_of
unfolding create_node_locked
create_node-Reports host req = search (report_rules, create_or_replay-Reports) depth 9

pub update_node-Reports :
    (host : Host) (req : UpdateNodeRequest) → Reports (update_node_locked host req) events_of
unfolding update_node_locked
update_node-Reports host req = search (report_rules, update_fresh-Reports) depth 9

pub set_status-Reports :
    (host : Host) (req : SetStatusRequest) → Reports (set_status_locked host req) events_of
unfolding set_status_locked
set_status-Reports host req = search (report_rules, set_status_fresh-Reports) depth 9

pub add_dependency-Reports :
    (host : Host) (req : AddDependencyRequest) → Reports (add_dependency_locked host req) events_of
unfolding add_dependency_locked
add_dependency-Reports host req = search (report_rules, add_fresh-Reports) depth 9

pub remove_dependency-Reports :
    (host : Host) (req : RemoveDependencyRequest)
    → Reports (remove_dependency_locked host req) events_of
unfolding remove_dependency_locked
remove_dependency-Reports host req = search (report_rules, remove_fresh-Reports) depth 9
