-- ===== src/Store/Keeps/Operations.antt =====
-- Invariants over the operations on nodes and dependencies of flowcore/src/store.rs.
use flowcontrol.Common.{ℤ, String, Option, none, some, List, [], ◌∷◌}
use flowcontrol.Schema.{Db, Host}
use flowcontrol.Message.{
  Node, CreateNodeRequest, UpdateNodeRequest, DeleteNodeRequest, SetStatusRequest,
  AddDependencyRequest, RemoveDependencyRequest,
}
use flowcontrol.Statement.{Session}
use flowcontrol.Sql.{◌>>=◌, pure}
use flowcontrol.Store.Keeps.{
  Preserves, ByStatement, Keeps, Keeps-pure, Keeps-bind, Keeps-seq, Keeps-execute,
}
use flowcontrol.Store.Keeps.Helpers.{
  read_rules, append_event-Keeps, record_idempotency-Keeps, record_idempotency_created-Keeps,
}
use flowcontrol.Store.Reads.{IdemHit}
use flowcontrol.Store.Nodes.{
  create_fresh, create_or_replay, replay_create, create_node_locked, update_field, each,
  update_fresh, update_node_locked,
}
use flowcontrol.Store.Delete.{
  log_drop, log_dropped, delete_fresh, delete_checked, delete_node_locked, set_status_fresh,
  set_status_locked,
}
use flowcontrol.Store.Edges.{
  add_fresh, add_dependency_locked, remove_fresh, remove_dependency_locked,
}

module _ {P : Db → Type 0} where
  pub each-Keeps {ℓ} :
      {A : Type ℓ} (f : A → Session (Unit {0})) (l : List A)
      → ((a : A) → Keeps P (f a))
      → Keeps P (each f l)
  unfolding each
  each-Keeps f [] kf = Keeps-pure tt
  each-Keeps f (a ∷ l) kf = Keeps-seq _ _ (kf a) (each-Keeps f l kf)

module _ {P : Db → Type 0} (keep : ByStatement P) where
  pub update_field-Keeps :
      (host : Host) (req : UpdateNodeRequest) (f : String) → Keeps P (update_field host req f)
  unfolding update_field
  update_field-Keeps host req f = search (read_rules, Keeps-execute keep) depth 10

module _ {P : Db → Type 0} (keep : Preserves P) where
  create_fresh-Keeps : (host : Host) (req : CreateNodeRequest) → Keeps P (create_fresh host req)
  unfolding create_fresh
  create_fresh-Keeps host req =
      search
        (
          read_rules,
          Keeps-execute keep.by_statement,
          append_event-Keeps keep,
          record_idempotency_created-Keeps keep.by_statement,
        )
        depth 12

  pub replay_create-Keeps : (seq : ℤ) (id : Option String) → Keeps P (replay_create seq id)
  unfolding replay_create
  replay_create-Keeps seq none = Keeps-pure _
  replay_create-Keeps seq (some id) = search read_rules

  create_or_replay-Keeps :
      (host : Host) (req : CreateNodeRequest) (hit : Option IdemHit)
      → Keeps P (create_or_replay host req hit)
  unfolding create_or_replay
  create_or_replay-Keeps host req none = create_fresh-Keeps host req
  create_or_replay-Keeps host req (some hit) = replay_create-Keeps hit.seq hit.entity_id

  pub create_node-Keeps :
      (host : Host) (req : CreateNodeRequest) → Keeps P (create_node_locked host req)
  unfolding create_node_locked
  create_node-Keeps host req = search (read_rules, create_or_replay-Keeps)

  update_fresh-Keeps :
      (host : Host) (req : UpdateNodeRequest) (project : String)
      → Keeps P (update_fresh host req project)
  unfolding update_fresh
  update_fresh-Keeps host req project =
      search
        (
          read_rules,
          each-Keeps,
          update_field-Keeps keep.by_statement,
          append_event-Keeps keep,
          record_idempotency-Keeps keep.by_statement,
        )
        depth 12

  pub update_node-Keeps :
      (host : Host) (req : UpdateNodeRequest) → Keeps P (update_node_locked host req)
  unfolding update_node_locked
  update_node-Keeps host req = search (read_rules, update_fresh-Keeps) depth 8

  pub log_drop-Keeps :
      (host : Host) (project author id : String) → Keeps P (log_drop host project author id)
  unfolding log_drop
  log_drop-Keeps host project author id = search (append_event-Keeps keep)

  pub log_dropped-Keeps :
      (host : Host) (project author : String) (ids : List String)
      → Keeps P (log_dropped host project author ids)
  unfolding log_dropped
  log_dropped-Keeps host project author [] = Keeps-pure []
  log_dropped-Keeps host project author (id ∷ ids) =
      Keeps-bind _ (λ e. log_dropped host project author ids >>= λ es. pure (e ∷ es))
        (log_drop-Keeps host project author id)
        (λ e.
          Keeps-bind _ (λ es. pure (e ∷ es)) (log_dropped-Keeps host project author ids)
            (λ es. Keeps-pure _))

  delete_fresh-Keeps :
      (host : Host) (req : DeleteNodeRequest) (current : Node)
      → Keeps P (delete_fresh host req current)
  unfolding delete_fresh
  delete_fresh-Keeps host req current =
      search
        (
          read_rules,
          Keeps-execute keep.by_statement,
          log_dropped-Keeps,
          append_event-Keeps keep,
          record_idempotency-Keeps keep.by_statement,
        )
        depth 14

  delete_checked-Keeps :
      (host : Host) (req : DeleteNodeRequest) (current : Node)
      → Keeps P (delete_checked host req current)
  unfolding delete_checked
  delete_checked-Keeps host req current = search (read_rules, delete_fresh-Keeps)

  pub delete_node-Keeps :
      (host : Host) (req : DeleteNodeRequest) → Keeps P (delete_node_locked host req)
  unfolding delete_node_locked
  delete_node-Keeps host req = search (read_rules, delete_checked-Keeps) depth 8

  set_status_fresh-Keeps :
      (host : Host) (req : SetStatusRequest) (current : Node)
      → Keeps P (set_status_fresh host req current)
  unfolding set_status_fresh
  set_status_fresh-Keeps host req current =
      search
        (
          read_rules,
          Keeps-execute keep.by_statement,
          append_event-Keeps keep,
          record_idempotency-Keeps keep.by_statement,
        )
        depth 12

  pub set_status-Keeps :
      (host : Host) (req : SetStatusRequest) → Keeps P (set_status_locked host req)
  unfolding set_status_locked
  set_status-Keeps host req = search (read_rules, set_status_fresh-Keeps) depth 8

  add_fresh-Keeps :
      (host : Host) (req : AddDependencyRequest) (project : String)
      → Keeps P (add_fresh host req project)
  unfolding add_fresh
  add_fresh-Keeps host req project =
      search
        (
          read_rules,
          Keeps-execute keep.by_statement,
          append_event-Keeps keep,
          record_idempotency-Keeps keep.by_statement,
        )
        depth 12

  pub add_dependency-Keeps :
      (host : Host) (req : AddDependencyRequest) → Keeps P (add_dependency_locked host req)
  unfolding add_dependency_locked
  add_dependency-Keeps host req = search (read_rules, add_fresh-Keeps) depth 8

  remove_fresh-Keeps :
      (host : Host) (req : RemoveDependencyRequest) (project : String)
      → Keeps P (remove_fresh host req project)
  unfolding remove_fresh
  remove_fresh-Keeps host req project =
      search
        (
          read_rules,
          Keeps-execute keep.by_statement,
          append_event-Keeps keep,
          record_idempotency-Keeps keep.by_statement,
        )
        depth 12

  pub remove_dependency-Keeps :
      (host : Host) (req : RemoveDependencyRequest) → Keeps P (remove_dependency_locked host req)
  unfolding remove_dependency_locked
  remove_dependency-Keeps host req = search (read_rules, remove_fresh-Keeps) depth 8
