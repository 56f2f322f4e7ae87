-- ===== src/Store/Keeps/Helpers.antt =====
-- Invariants over the reads and helpers of flowcore/src/store.rs.
use flowcontrol.Common.{ℤ, Bool, true, false, String, Option, none, some, List, [], ◌∷◌, mem_str}
use flowcontrol.Schema.{Db, Host}
use flowcontrol.Message.{Event, Node, Mutation}
use flowcontrol.Statement.{Session}
use flowcontrol.Store.Reads.{
  verification_for, with_verification, fetch_node, project_of, fetch_project, downstream_of,
  check_idempotency, check_idempotency_created,
}
use flowcontrol.Store.Keeps.{
  Preserves, ByStatement, Keeps, Keeps-pure, Keeps-raise, Keeps-lift, Keeps-reads, Keeps-if,
  Keeps-bind, Keeps-seq, Keeps-transaction, Keeps-execute, Keeps-returning_event,
}
use flowcontrol.Store.Progress.{progress_for}
use flowcontrol.Store.Helpers.{
  append_event, record_idempotency, record_idempotency_created, changed_from, finish_mutation,
  require, unless_replayed,
}

pub ruleset keeps_rules = (
  Keeps-pure, Keeps-raise, Keeps-lift, Keeps-reads, Keeps-if, Keeps-bind, Keeps-seq,
  Keeps-transaction,
)

module _ {P : Db → Type 0} (keep : Preserves P) where
  pub append_event-Keeps :
      (host : Host) (project node kind author summary payload : String)
      → Keeps P (append_event host project node kind author summary payload)
  unfolding append_event
  append_event-Keeps host project node kind author summary payload =
      search (keeps_rules, Keeps-returning_event keep)

module _ {P : Db → Type 0} (keep : ByStatement P) where
  pub record_idempotency-Keeps :
      (host : Host) (scope : String) (key : Option String) (seq : ℤ)
      → Keeps P (record_idempotency host scope key seq)
  unfolding record_idempotency
  record_idempotency-Keeps host scope none seq = Keeps-pure tt
  record_idempotency-Keeps host scope (some key) seq = Keeps-execute keep host _

  pub record_idempotency_created-Keeps :
      (host : Host) (scope : String) (key : Option String) (seq : ℤ) (entity : String)
      → Keeps P (record_idempotency_created host scope key seq entity)
  unfolding record_idempotency_created
  record_idempotency_created-Keeps host scope none seq entity = Keeps-pure tt
  record_idempotency_created-Keeps host scope (some key) seq entity = Keeps-execute keep host _

module _ {P : Db → Type 0} where
  pub verification_for-Keeps : (id : String) → Keeps P (verification_for id)
  unfolding verification_for
  verification_for-Keeps id = search keeps_rules

  pub with_verification-Keeps : (n : Option Node) → Keeps P (with_verification n)
  unfolding with_verification
  with_verification-Keeps none = Keeps-pure none
  with_verification-Keeps (some n) = search (keeps_rules, verification_for-Keeps)

  pub fetch_node-Keeps : (id : String) → Keeps P (fetch_node id)
  unfolding fetch_node
  fetch_node-Keeps id = search (keeps_rules, with_verification-Keeps)

  pub project_of-Keeps : (id : String) → Keeps P (project_of id)
  unfolding project_of
  project_of-Keeps id = Keeps-reads _

  pub downstream_of-Keeps : (id : String) → Keeps P (downstream_of id)
  unfolding downstream_of
  downstream_of-Keeps id = Keeps-reads _

  pub fetch_project-Keeps : (id : String) → Keeps P (fetch_project id)
  unfolding fetch_project
  fetch_project-Keeps id = search keeps_rules

  pub check_idempotency-Keeps :
      (scope : String) (key : Option String) → Keeps P (check_idempotency scope key)
  unfolding check_idempotency
  check_idempotency-Keeps scope none = Keeps-pure none
  check_idempotency-Keeps scope (some key) = Keeps-reads _

  pub check_idempotency_created-Keeps :
      (scope : String) (key : Option String) → Keeps P (check_idempotency_created scope key)
  unfolding check_idempotency_created
  check_idempotency_created-Keeps scope none = Keeps-pure none
  check_idempotency_created-Keeps scope (some key) = Keeps-reads _

  pub progress_for-Keeps : (project : String) → Keeps P (progress_for project)
  unfolding progress_for
  progress_for-Keeps project = search keeps_rules

  changed_case :
      (seen : Bool) (m n : Session (List Node))
      → Keeps P m
      → Keeps P n
      → Keeps P (elim seen [ true ↦ m | false ↦ n ])
  changed_case true m n km kn = km
  changed_case false m n km kn = kn

  pub changed_from-Keeps : (ids seen : List String) → Keeps P (changed_from ids seen)
  unfolding changed_from
  changed_from-Keeps [] seen = Keeps-pure []
  changed_from-Keeps (id ∷ ids) seen =
      changed_case (mem_str id seen) _ _ (changed_from-Keeps ids seen) (
        Keeps-bind _ _ (fetch_node-Keeps id)
          (λ n. Keeps-bind _ _ (changed_from-Keeps ids (id ∷ seen)) (λ ns. Keeps-pure _)))

  pub finish_mutation-Keeps :
      (project : String) (events : List Event) (affected : List String)
      → Keeps P (finish_mutation project events affected)
  unfolding finish_mutation
  finish_mutation-Keeps project events affected =
      search (keeps_rules, changed_from-Keeps, progress_for-Keeps)

  pub require-Keeps {ℓ} :
      {A : Type ℓ} (message : String) (o : Option A) → Keeps P (require message o)
  require-Keeps message none = Keeps-raise _
  require-Keeps message (some a) = Keeps-pure a

  pub unless_replayed-Keeps :
      (hit : Option ℤ) (m : Session Mutation) → Keeps P m → Keeps P (unless_replayed hit m)
  unless_replayed-Keeps none m km = km
  unless_replayed-Keeps (some seq) m km = Keeps-pure _

pub ruleset read_rules = (
  keeps_rules, fetch_node-Keeps, project_of-Keeps, downstream_of-Keeps, fetch_project-Keeps,
  check_idempotency-Keeps, check_idempotency_created-Keeps, finish_mutation-Keeps, require-Keeps,
  unless_replayed-Keeps,
)
