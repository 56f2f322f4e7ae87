-- ===== src/Store/Told/Helpers.antt =====
-- flowcore/src/store.rs: the helpers of the operations, and what they append.
use flowcontrol.Common.{ℤ, String, Option, none, some, List, [], ◌∷◌, ◌++◌, ◌≡◌, refl}
use flowcontrol.Schema.{Db, Host}
use flowcontrol.Sql.{◌>>=◌, transaction}
use flowcontrol.Message.{Event, Mutation}
use flowcontrol.Statement.{Session, execute, engine}
use flowcontrol.Statement.Syntax.{Statement}
use flowcontrol.Store.Keeps.{Keeps, Keeps-execute}
use flowcontrol.Store.Keeps.Helpers.{
  read_rules, record_idempotency-Keeps, record_idempotency_created-Keeps, changed_from-Keeps,
  progress_for-Keeps,
}
use flowcontrol.Store.Helpers.{
  append_event, record_idempotency, record_idempotency_created, finish_mutation, unless_replayed,
}
use flowcontrol.Store.Told.{Known, Known-statement}
use flowcontrol.Store.Told.Rules.{
  Tells, Tells-pure, Tells-raise, Tells-if, Tells-silent, Tells-silent_seq, Tells-bind,
  Tells-transaction, append_event-Tells,
}
use flowcontrol.Store.Told.Reports.{
  Reports, Reports-Tells, Reports-raise, Reports-if, Reports-none, Reports-read, Reports-pure,
}

abbrev pub events_of : Mutation → List Event
events_of m = m.events

module _ {ℓ κ} {A : Type ℓ} {B : Type κ} {p : String} {prior : List Event} where
  -- A transaction, and what comes after it.
  pub Tells-commit :
      (host : Host) (h : A → List Event) (m : Session A) (g : A → Session B) (f : B → List Event)
      → ((a : A) → Tells p (h a) (g a) f)
      → Tells p prior m h
      → Tells p prior (transaction (engine host) m >>= g) f
  Tells-commit host h m g f tg tm = Tells-bind _ h g f (Tells-transaction host m h tm) tg

module _ {ℓ} {A : Type ℓ} {p : String} {prior : List Event} where
  -- A transaction that returns its event, alone or with something else, or several events.
  pub Tells-commit_one :
      (host : Host) (m : Session Event) (g : Event → Session A) (f : A → List Event)
      → ((ev : Event) → Tells p (ev ∷ []) (g ev) f)
      → Tells p prior m (λ ev. ev ∷ [])
      → Tells p prior (transaction (engine host) m >>= g) f
  Tells-commit_one host = Tells-commit host (λ ev. ev ∷ [])

  pub Tells-commit_pair :
      (host : Host) {X : Type 0} (m : Session (Event × X)) (g : Event × X → Session A)
      (f : A → List Event)
      → ((r : Event × X) → Tells p (r.0 ∷ []) (g r) f)
      → Tells p prior m (λ r. r.0 ∷ [])
      → Tells p prior (transaction (engine host) m >>= g) f
  Tells-commit_pair host = Tells-commit host (λ r. r.0 ∷ [])

module _ {ℓ} {A : Type ℓ} {p : String} {prior : List Event} where
  pub Tells-append :
      (host : Host) (node kind author summary payload : String) (g : Event → Session A)
      (f : A → List Event)
      → ((ev : Event) → Tells p (prior ++ ev ∷ []) (g ev) f)
      → Tells p prior (append_event host p node kind author summary payload >>= g) f
  Tells-append host node kind author summary payload g f tg =
      Tells-bind _ _ g f (append_event-Tells host node kind author summary payload) tg

pub finish_mutation-Tells :
    (p project : String) (events : List Event) (affected : List String)
    → Tells p events (finish_mutation project events affected) events_of
unfolding finish_mutation
finish_mutation-Tells p project events affected =
    Tells-silent _ _ _ (λ b. changed_from-Keeps affected [])
      (λ nodes. Tells-silent _ _ _ (λ b. progress_for-Keeps project) (λ g. Tells-pure _ _ refl))

pub execute-Known :
    (host : Host) (st : Statement) (base : Db) (told : List Event)
    → Keeps (Known base told) (execute host st)
execute-Known host st base told = Keeps-execute (Known-statement base told) host st

pub key-Known :
    (host : Host) (scope : String) (key : Option String) (seq : ℤ) (base : Db) (told : List Event)
    → Keeps (Known base told) (record_idempotency host scope key seq)
key-Known host scope key seq base told =
    record_idempotency-Keeps (Known-statement base told) host scope key seq

pub created-Known :
    (host : Host) (scope : String) (key : Option String) (seq : ℤ) (entity : String) (base : Db)
    (told : List Event)
    → Keeps (Known base told) (record_idempotency_created host scope key seq entity)
created-Known host scope key seq entity base told =
    record_idempotency_created-Keeps (Known-statement base told) host scope key seq entity

pub ruleset tell_rules = (
  Tells-pure, Tells-raise, Tells-if, Tells-commit_one, Tells-commit_pair, Tells-append,
  Tells-silent, Tells-silent_seq, finish_mutation-Tells, read_rules, execute-Known, key-Known,
  created-Known, refl,
)

pub unless_replayed-Reports :
    (hit : Option ℤ) (m : Session Mutation)
    → Reports m events_of
    → Reports (unless_replayed hit m) events_of
unless_replayed-Reports none m rm = rm
unless_replayed-Reports (some seq) m rm = Reports-pure _ _ refl

pub ruleset report_rules =
    (Reports-raise, Reports-if, Reports-read, unless_replayed-Reports, read_rules)
