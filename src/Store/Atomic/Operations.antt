-- ===== src/Store/Atomic/Operations.antt =====
-- Each mutation of flowcore/src/store.rs, taken apart into its reads, its transaction and its end.
use flowcontrol.Common.{ℤ, String, Option, none, some}
use flowcontrol.Schema.{Host}
use flowcontrol.Message.{
  Node, CreateNodeRequest, UpdateNodeRequest, DeleteNodeRequest, SetStatusRequest,
  AddDependencyRequest, RemoveDependencyRequest,
}
use flowcontrol.Store.Atomic.{Atomic, Quiet-Atomic, Quiet-pure, Atomic-read}
use flowcontrol.Store.Keeps.{Keeps}
use flowcontrol.Store.Keeps.Operations.{each-Keeps, update_field-Keeps, log_dropped-Keeps}
use flowcontrol.Store.Invariant.Rows.{IsSound, Sound-Preserves}
use flowcontrol.Store.Reads.{IdemHit}
use flowcontrol.Store.Nodes.{
  create_fresh, create_or_replay, replay_create, create_node_locked, update_field, update_fresh,
  update_node_locked,
}
use flowcontrol.Store.Delete.{
  delete_fresh, delete_checked, delete_node_locked, set_status_fresh, set_status_locked,
}
use flowcontrol.Store.Edges.{
  add_fresh, add_dependency_locked, remove_fresh, remove_dependency_locked,
}
use flowcontrol.Store.Atomic.Rules.{atomic_rules, body_rules, fetch_node-Quiet}

set_status_fresh-Atomic :
    (host : Host) (req : SetStatusRequest) (current : Node)
    → Atomic host (set_status_fresh host req current)
unfolding set_status_fresh
set_status_fresh-Atomic host req current = search (atomic_rules, body_rules) depth 14

pub set_status-Atomic :
    (host : Host) (req : SetStatusRequest) → Atomic host (set_status_locked host req)
unfolding set_status_locked
set_status-Atomic host req = search (atomic_rules, set_status_fresh-Atomic) depth 9

replay_create-Atomic :
    {host : Host} (seq : ℤ) (id : Option String) → Atomic host (replay_create seq id)
unfolding replay_create
replay_create-Atomic seq none = Quiet-Atomic _ (Quiet-pure _)
replay_create-Atomic seq (some id) =
    Atomic-read _ _ (fetch_node-Quiet id) (λ n. Quiet-Atomic _ (Quiet-pure _))

create_fresh-Atomic : (host : Host) (req : CreateNodeRequest) → Atomic host (create_fresh host req)
unfolding create_fresh
create_fresh-Atomic host req = search (atomic_rules, body_rules) depth 14

create_or_replay-Atomic :
    (host : Host) (req : CreateNodeRequest) (hit : Option IdemHit)
    → Atomic host (create_or_replay host req hit)
unfolding create_or_replay
create_or_replay-Atomic host req none = create_fresh-Atomic host req
create_or_replay-Atomic host req (some hit) = replay_create-Atomic hit.seq hit.entity_id

pub create_node-Atomic :
    (host : Host) (req : CreateNodeRequest) → Atomic host (create_node_locked host req)
unfolding create_node_locked
create_node-Atomic host req = search (atomic_rules, create_or_replay-Atomic) depth 9

field-Keeps :
    (host : Host) (req : UpdateNodeRequest) (f : String) → Keeps IsSound (update_field host req f)
field-Keeps = update_field-Keeps Sound-Preserves.by_statement

update_fresh-Atomic :
    (host : Host) (req : UpdateNodeRequest) (project : String)
    → Atomic host (update_fresh host req project)
unfolding update_fresh
update_fresh-Atomic host req project =
    search (atomic_rules, body_rules, each-Keeps {0}, field-Keeps) depth 14

pub update_node-Atomic :
    (host : Host) (req : UpdateNodeRequest) → Atomic host (update_node_locked host req)
unfolding update_node_locked
update_node-Atomic host req = search (atomic_rules, update_fresh-Atomic) depth 9

delete_fresh-Atomic :
    (host : Host) (req : DeleteNodeRequest) (current : Node)
    → Atomic host (delete_fresh host req current)
unfolding delete_fresh
delete_fresh-Atomic host req current =
    search (atomic_rules, body_rules, log_dropped-Keeps Sound-Preserves) depth 16

delete_checked-Atomic :
    (host : Host) (req : DeleteNodeRequest) (current : Node)
    → Atomic host (delete_checked host req current)
unfolding delete_checked
delete_checked-Atomic host req current = search (atomic_rules, delete_fresh-Atomic) depth 9

pub delete_node-Atomic :
    (host : Host) (req : DeleteNodeRequest) → Atomic host (delete_node_locked host req)
unfolding delete_node_locked
delete_node-Atomic host req = search (atomic_rules, delete_checked-Atomic) depth 9

add_fresh-Atomic :
    (host : Host) (req : AddDependencyRequest) (project : String)
    → Atomic host (add_fresh host req project)
unfolding add_fresh
add_fresh-Atomic host req project = search (atomic_rules, body_rules) depth 14

pub add_dependency-Atomic :
    (host : Host) (req : AddDependencyRequest) → Atomic host (add_dependency_locked host req)
unfolding add_dependency_locked
add_dependency-Atomic host req = search (atomic_rules, add_fresh-Atomic) depth 9

remove_fresh-Atomic :
    (host : Host) (req : RemoveDependencyRequest) (project : String)
    → Atomic host (remove_fresh host req project)
unfolding remove_fresh
remove_fresh-Atomic host req project = search (atomic_rules, body_rules) depth 14

pub remove_dependency-Atomic :
    (host : Host) (req : RemoveDependencyRequest) → Atomic host (remove_dependency_locked host req)
unfolding remove_dependency_locked
remove_dependency-Atomic host req = search (atomic_rules, remove_fresh-Atomic) depth 9
