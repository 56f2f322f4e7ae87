-- ===== src/Store/Told/Removal.antt =====
-- flowcore/src/store.rs: what a delete and a move append is in their mutations.
use flowcontrol.Common.{
  sym, Bool, true, false, String, Option, none, some, List, [], ◌∷◌, ◌++◌, ◌≡◌, refl,
}
use mathlib.Core.List.{append_assoc, append-nil}
use flowcontrol.Schema.{Db, Host}
use flowcontrol.Sql.{◌>>=◌, pure, transaction}
use flowcontrol.Message.{Event, Node, Mutation, DeleteNodeRequest, MoveNodeRequest}
use flowcontrol.Statement.{Session, engine, reads}
use flowcontrol.Store.Keeps.{Keeps, Keeps-reads}
use flowcontrol.Store.Helpers.{author_of}
use flowcontrol.Store.Keeps.More.{clear_if-Keeps}
use flowcontrol.Store.Told.{Known, Known-statement}
use flowcontrol.Store.Told.Rules.{Tells, Tells-pure, Tells-bind, Tells-silent, append_event-Tells}
use flowcontrol.Store.Told.Reports.{Reports, Reports-Tells, Reports-raise}
use flowcontrol.Store.Told.Helpers.{events_of, tell_rules, report_rules, Tells-commit}
use flowcontrol.Store.Delete.{
  log_drop, log_dropped, delete_fresh, delete_checked, delete_node_locked,
}
use flowcontrol.Store.Moves.{
  child_ids, drop_child, drop_children, drop_if_demoted, clear_if, move_fresh, unless_refused,
  move_node_locked,
}

-- One more event, then those that follow it.
one_more :
    (prior : List Event) (e : Event) (es : List Event) → (prior ++ e ∷ []) ++ es ≡ prior ++ e ∷ es
one_more prior e es = append_assoc prior (e ∷ []) es

log_drop-Tells :
    (host : Host) (p author id : String) (prior : List Event)
    → Tells p prior (log_drop host p author id) (λ ev. prior ++ ev ∷ [])
unfolding log_drop
log_drop-Tells host p author id prior = search append_event-Tells

log_dropped-Tells :
    (host : Host) (p author : String) (ids : List String) (prior : List Event)
    → Tells p prior (log_dropped host p author ids) (λ es. prior ++ es)
unfolding log_dropped
log_dropped-Tells host p author [] prior = Tells-pure [] _ (sym (append-nil prior))
log_dropped-Tells host p author (id ∷ ids) prior =
    Tells-bind _ _ (λ e. log_dropped host p author ids >>= λ es. pure (e ∷ es)) _
      (log_drop-Tells host p author id prior)
      (λ e.
        Tells-bind _ _ (λ es. pure (e ∷ es)) _
          (log_dropped-Tells host p author ids (prior ++ e ∷ []))
          (λ es. Tells-pure _ _ (one_more prior e es)))

module _ {ℓ} {A : Type ℓ} {p : String} where
  -- A transaction that returns all its events.
  Tells-commit_all :
      (host : Host) (m : Session (List Event)) (g : List Event → Session A) (f : A → List Event)
      → ((es : List Event) → Tells p es (g es) f)
      → Tells p [] m (λ es. es)
      → Tells p [] (transaction (engine host) m >>= g) f
  Tells-commit_all host = Tells-commit host (λ es. es)

  -- The deletes of the nodes below, then the rest.
  Tells-dropped :
      (host : Host) (author : String) (ids : List String) (g : List Event → Session A)
      (f : A → List Event)
      → ((es : List Event) → Tells p es (g es) f)
      → Tells p [] (log_dropped host p author ids >>= g) f
  Tells-dropped host author ids g f tg =
      Tells-bind _ (λ es. es) g f (log_dropped-Tells host p author ids []) tg

delete_fresh-Reports :
    (host : Host) (req : DeleteNodeRequest) (current : Node)
    → Reports (delete_fresh host req current) events_of
unfolding delete_fresh
delete_fresh-Reports host req current =
    Reports-Tells current.project_id _ _
      (search (Tells-commit_all, Tells-dropped, tell_rules) depth 24)

delete_checked-Reports :
    (host : Host) (req : DeleteNodeRequest) (current : Node)
    → Reports (delete_checked host req current) events_of
unfolding delete_checked
delete_checked-Reports host req current = search (report_rules, delete_fresh-Reports) depth 9

pub delete_node-Reports :
    (host : Host) (req : DeleteNodeRequest) → Reports (delete_node_locked host req) events_of
unfolding delete_node_locked
delete_node-Reports host req = search (report_rules, delete_checked-Reports) depth 9

module _ {ℓ} {A : Type ℓ} {p : String} {prior : List Event} where
  -- A logged delete, then the rest.
  Tells-drop :
      (host : Host) (author id : String) (g : Event → Session A) (f : A → List Event)
      → ((e : Event) → Tells p (prior ++ e ∷ []) (g e) f)
      → Tells p prior (log_drop host p author id >>= g) f
  Tells-drop host author id g f tg = Tells-bind _ _ g f (log_drop-Tells host p author id prior) tg

drop_child-Tells :
    (host : Host) (p author id : String) (prior : List Event)
    → Tells p prior (drop_child host p author id) (λ r. prior ++ r.1 ∷ [])
unfolding drop_child
drop_child-Tells host p author id prior = search (Tells-drop, tell_rules) depth 12

drop_children-Tells :
    (host : Host) (p author : String) (ids : List String) (prior : List Event)
    → Tells p prior (drop_children host p author ids) (λ r. prior ++ r.1)
unfolding drop_children
drop_children-Tells host p author [] prior = Tells-pure _ _ (sym (append-nil prior))
drop_children-Tells host p author (id ∷ ids) prior =
    Tells-bind _ _
      (λ one. drop_children host p author ids >>= λ rest. pure (one.0 ++ rest.0, one.1 ∷ rest.1)) _
      (drop_child-Tells host p author id prior)
      (λ one.
        Tells-bind _ _ (λ rest. pure (one.0 ++ rest.0, one.1 ∷ rest.1)) _
          (drop_children-Tells host p author ids (prior ++ one.1 ∷ []))
          (λ rest. Tells-pure _ _ (one_more prior one.1 rest.1)))

drop_if_demoted-Tells :
    (host : Host) (req : MoveNodeRequest) (current : Node) (b : Bool)
    → Tells current.project_id [] (drop_if_demoted host req current b) (λ r. r.1)
unfolding drop_if_demoted
drop_if_demoted-Tells host req current false = Tells-pure _ _ refl
drop_if_demoted-Tells host req current true =
    Tells-silent (reads (λ d. child_ids d req.node_id))
      (λ ids. drop_children host current.project_id (author_of req.meta) ids) _ (λ b. Keeps-reads _)
      (λ ids. drop_children-Tells host _ _ ids [])

module _ {ℓ} {A : Type ℓ} where
  Tells-demoted :
      (host : Host) (req : MoveNodeRequest) (current : Node) (b : Bool)
      (g : List String × List Event → Session A) (f : A → List Event)
      → ((r : List String × List Event) → Tells current.project_id r.1 (g r) f)
      → Tells current.project_id [] (drop_if_demoted host req current b >>= g) f
  Tells-demoted host req current b g f tg =
      Tells-bind _ (λ r. r.1) g f (drop_if_demoted-Tells host req current b) tg

module _ {ℓ} {A : Type ℓ} {p : String} where
  -- A transaction that returns all its events with something else.
  Tells-commit_first :
      (host : Host) {X : Type 0} (m : Session (List Event × X)) (g : List Event × X → Session A)
      (f : A → List Event)
      → ((r : List Event × X) → Tells p r.0 (g r) f)
      → Tells p [] m (λ r. r.0)
      → Tells p [] (transaction (engine host) m >>= g) f
  Tells-commit_first host = Tells-commit host (λ r. r.0)

clear_if-Known :
    (host : Host) (id : String) (b : Bool) (base : Db) (told : List Event)
    → Keeps (Known base told) (clear_if host id b)
clear_if-Known host id b base told = clear_if-Keeps (Known-statement base told) host id b

move_fresh-Reports :
    (host : Host) (req : MoveNodeRequest) (current : Node)
    → Reports (move_fresh host req current) events_of
unfolding move_fresh
move_fresh-Reports host req current =
    Reports-Tells current.project_id _ _
      (search (Tells-commit_first, Tells-demoted, clear_if-Known, tell_rules) depth 24)

unless_refused-Reports :
    (o : Option String) (m : Session Mutation)
    → Reports m events_of
    → Reports (unless_refused o m) events_of
unless_refused-Reports none m rm = rm
unless_refused-Reports (some message) m rm = Reports-raise _ _

pub move_node-Reports :
    (host : Host) (req : MoveNodeRequest) → Reports (move_node_locked host req) events_of
unfolding move_node_locked
move_node-Reports host req =
    search (report_rules, unless_refused-Reports, move_fresh-Reports) depth 10
