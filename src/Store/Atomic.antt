-- ===== src/Store/Atomic.antt =====
-- flowcore/src/store.rs: what a mutation that fails does to the database, by its parts: the reads, the
-- transaction and what follows it.
pub mod Rules
mod Operations
mod More
pub mod Requests
use flowcontrol.Common.{
  ℤ, Bool, true, false, String, Option, none, some, List, [], ◌∷◌, ◌≡◌, refl, sym, ap, ◌∙◌,
  if◌then◌else◌, mem_str, subst, option_map, Bool-cases, ◌⊎◌, inl, inr,
}
use flowcontrol.Error.{DomainError, DResult, ok, err, from_db_message}
use flowcontrol.Schema.{Db, Host}
use flowcontrol.Sql.{
  Outcome, done, fail, continue, close, commit_with, ◌>>=◌, ◌>>◌, pure, raise, lift, transaction,
}
use flowcontrol.Message.{Event, Node, Mutation}
use flowcontrol.Statement.{Conn, Session, reads, engine, begin_in, commit_in, answered_commit}
use flowcontrol.Store.Keeps.{after, On, Saved, Keeps, Keeps-transaction}
use flowcontrol.Store.Keeps.Helpers.{finish_mutation-Keeps}
use flowcontrol.Store.Invariant.Rows.{IsSound}
use flowcontrol.Store.Reads.Faithful.{fetch_node_lem}
use flowcontrol.Store.Progress.Total.{progress_for-Total}
use flowcontrol.Store.Progress.{progress_for}
use flowcontrol.Store.Reads.{fetch_node}
use flowcontrol.Store.Helpers.{changed_from, finish_mutation, require, unless_replayed}

-- The engine refused to commit what the session now has, and gave the error: the transaction is still
-- open, and a rollback would bring back what the session had.
pub record IsRefused (host : Host) (e : DomainError) (c c' : Conn) : Type 0 where
  pub text : String
  pub refused : host.refuse_commit c'.db ≡ some text
  pub error : e ≡ from_db_message text
  pub still_open : c'.saved ≡ some c.db

-- If the outcome is an error, the session is where it was, unless the engine refused a COMMIT.
abbrev pub Undone {ℓ} : {A : Type ℓ} → Host → Conn → Outcome Conn A → Type 0
Undone host c (done a c') = Unit
Undone host c (fail e c') = (c' ≡ c) ⊎ IsRefused host e c c'

pub record Atomic {ℓ} {A : Type ℓ} (host : Host) (m : Session A) : Type ℓ where
  pub at : (c : Conn) → c.saved ≡ none → IsSound c.db → Undone host c (m c)

-- A computation that changes nothing.
pub record Quiet {ℓ} {A : Type ℓ} (m : Session A) : Type ℓ where
  pub at : (c : Conn) → after (m c) ≡ c

-- A computation that succeeds on sound rows and changes nothing.
pub record Sure {ℓ} {A : Type ℓ} (m : Session A) : Type ℓ where
  pub at : (c : Conn) → IsSound c.db → (a : A) × (m c ≡ done a c)

module _ {ℓ} {A : Type ℓ} where
  quiet_at : (host : Host) (c : Conn) (r : Outcome Conn A) → after r ≡ c → Undone host c r
  quiet_at host c (done a c') h = tt
  quiet_at host c (fail e c') h = inl h

  pub Quiet-Atomic : {host : Host} (m : Session A) → Quiet m → Atomic host m
  Quiet-Atomic {host} m q = record { at = λ c s h. quiet_at host c (m c) (q.at c) }

  pub Quiet-pure : (a : A) → Quiet (pure a)
  Quiet-pure a = record { at = λ c. refl }

  pub Quiet-raise : (e : DomainError) → Quiet (raise {A = A} e)
  Quiet-raise e = record { at = λ c. refl }

  pub Quiet-reads : (f : Db → A) → Quiet (reads f)
  Quiet-reads f = record { at = λ c. refl }

  pub Quiet-lift : (r : DResult A) → Quiet (lift r)
  Quiet-lift (ok a) = record { at = λ c. refl }
  Quiet-lift (err e) = record { at = λ c. refl }

  pub Quiet-require : (message : String) (o : Option A) → Quiet (require message o)
  Quiet-require message none = Quiet-raise _
  Quiet-require message (some a) = Quiet-pure a

  pub Atomic-if :
      {host : Host} (b : Bool) (m n : Session A)
      → Atomic host m
      → Atomic host n
      → Atomic host (if b then m else n)
  Atomic-if true m n am an = am
  Atomic-if false m n am an = an

open_nothing : (c : Conn) → c.saved ≡ none → IsSound c.db → On IsSound c
open_nothing c s h = record { now = h; before = subst (Saved IsSound) (sym s) tt }

module _ {ℓ κ} {A : Type ℓ} {B : Type κ} where
  after_quiet :
      (host : Host) (c : Conn) (r : Outcome Conn A) (f : A → Session B)
      → after r ≡ c
      → ((a : A) → Undone host c (f a c))
      → Undone host c (continue r f)
  after_quiet host c (done a c') f e h = subst (λ x. Undone host c (f a x)) (sym e) (h a)
  after_quiet host c (fail x c') f e h = inl e

  -- First a read, then something atomic.
  pub Atomic-read :
      {host : Host} (m : Session A) (f : A → Session B)
      → Quiet m
      → ((a : A) → Atomic host (f a))
      → Atomic host (m >>= f)
  Atomic-read {host} m f q k = record {
    at = λ c s h. after_quiet host c (m c) f (q.at c) (λ a. (k a).at c s h);
  }

  after_atomic :
      (host : Host) (c : Conn) (r : Outcome Conn A) (f : A → Session B)
      → Undone host c r
      → On IsSound (after r)
      → ((a : A) → Sure (f a))
      → Undone host c (continue r f)
  after_atomic host c (done a c') f u k g = rw ((g a).at c' k.now).1 tt
  after_atomic host c (fail e c') f u k g = u

  -- First something atomic, then what cannot fail.
  pub Atomic-then :
      (host : Host) (m : Session A) (f : A → Session B)
      → Atomic host m
      → Keeps IsSound m
      → ((a : A) → Sure (f a))
      → Atomic host (m >>= f)
  Atomic-then host m f am km g = record {
    at = λ c s h. after_atomic host c (m c) f (am.at c s h) (km.at c (open_nothing c s h)) g;
  }

  pub Sure-bind :
      (m : Session A) (f : A → Session B) → Sure m → ((a : A) → Sure (f a)) → Sure (m >>= f)
  Sure-bind m f sm sf = record {
    at = λ c h.
        let (a, p) = sm.at c h in let (b, q) = (sf a).at c h in (b, ap (λ r. continue r f) p ∙ q);
  }

module _ {ℓ} {A : Type ℓ} where
  committed :
      (host : Host) (c c' : Conn) (a : A) (o : Option String)
      → host.refuse_commit c'.db ≡ o
      → c'.saved ≡ some c.db
      → Undone host c (commit_with (engine host) a (answered_commit o c'))
  committed host c c' a none q h = tt
  committed host c c' a (some text) q h =
      inr (record { text = text; refused = q; error = refl; still_open = h })

  -- The rollback of a transaction that fails, and a COMMIT.
  close_undoes :
      (host : Host) (c : Conn) (r : Outcome Conn A)
      → c.saved ≡ none
      → (after r).saved ≡ some c.db
      → Undone host c (close (engine host) r)
  close_undoes host c (done a c') s h =
      subst (λ o. Undone host c (commit_with (engine host) a (commit_in host o c'))) (sym h)
        (committed host c c' a (host.refuse_commit c'.db) refl h)
  close_undoes host c (fail e c') s h =
      rw h (inl (ap (λ o. record { db = c.db; saved = o }) (sym s)))

  begun :
      (host : Host) (c : Conn) (s : Option Db) (f : Session A) (kf : Keeps IsSound f)
      → c.saved ≡ s
      → s ≡ none
      → Undone host c (continue (begin_in s c) (λ _ c'. close (engine host) (f c')))
  begun host c none f kf e n = close_undoes host c (f _) e (kf.same _ c.db refl)
  begun host c (some d) f kf e n = inl refl

  pub Atomic-transaction :
      (host : Host) (f : Session A) → Keeps IsSound f → Atomic host (transaction (engine host) f)
  unfolding transaction
  Atomic-transaction host f kf = record { at = λ c s h. begun host c c.saved f kf refl s }

  pub Sure-pure : (a : A) → Sure (pure a)
  Sure-pure a = record { at = λ c h. (a, refl) }

  pub Atomic-raise : {host : Host} (e : DomainError) → Atomic host (raise {A = A} e)
  Atomic-raise e = Quiet-Atomic _ (Quiet-raise e)

-- A transaction, and then what cannot fail.
pub Atomic-commit {ℓ κ} :
    {A : Type ℓ} {B : Type κ} (host : Host) (f : Session A) (g : A → Session B)
    → Keeps IsSound f
    → ((a : A) → Sure (g a))
    → Atomic host (transaction (engine host) f >>= g)
Atomic-commit host f g kf sg =
    Atomic-then host (transaction (engine host) f) g (Atomic-transaction host f kf)
      (Keeps-transaction host f kf) sg

pub unless_replayed-Atomic :
    {host : Host} (hit : Option ℤ) (m : Session Mutation)
    → Atomic host m
    → Atomic host (unless_replayed hit m)
unless_replayed-Atomic none m am = am
unless_replayed-Atomic (some seq) m am = Quiet-Atomic _ (Quiet-pure _)

changed_case :
    (seen : Bool) (m n : Session (List Node))
    → Sure m
    → Sure n
    → Sure (elim seen [ true ↦ m | false ↦ n ])
changed_case true m n sm sn = sm
changed_case false m n sm sn = sn

fetch_node-Sure : (id : String) → Sure (fetch_node id)
fetch_node-Sure id = record { at = λ c h. (_, fetch_node_lem id c) }

changed_from-Sure : (ids seen : List String) → Sure (changed_from ids seen)
unfolding changed_from
changed_from-Sure [] seen = Sure-pure []
changed_from-Sure (id ∷ ids) seen =
    changed_case (mem_str id seen) _ _ (changed_from-Sure ids seen) (
      Sure-bind _ _ (fetch_node-Sure id)
        (λ n. Sure-bind _ _ (changed_from-Sure ids (id ∷ seen)) (λ ns. Sure-pure _)))

progress_for-Sure : (project : String) → Sure (progress_for project)
progress_for-Sure project = record { at = progress_for-Total project }

-- What each mutation ends with cannot fail on sound rows.
pub finish_mutation-Sure :
    (project : String) (events : List Event) (affected : List String)
    → Sure (finish_mutation project events affected)
unfolding finish_mutation
finish_mutation-Sure project events affected =
    Sure-bind _ _ (changed_from-Sure affected [])
      (λ ns. Sure-bind _ _ (progress_for-Sure project) (λ ps. Sure-pure _))
