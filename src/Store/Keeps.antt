-- ===== src/Store/Keeps.antt =====
-- Invariants of the database over whole operations of flowcore/src/store.rs: a rule for each way to
-- build an operation from statements and events, a transaction that rolls back included.
pub mod Helpers
pub mod Operations
pub mod More
pub mod Undo
pub mod Projects
pub mod Dispatch
use flowcontrol.Common.{
  String, Bool, true, false, Option, none, some, ◌≡◌, refl, ◌∙◌, if◌then◌else◌,
}
use flowcontrol.Error.{DomainError, DResult, ok, err}
use flowcontrol.Schema.{Db, Host, EventRow}
use flowcontrol.Sql.{
  Outcome, done, fail, continue, close, commit_with, roll_back_with, ◌>>=◌, ◌>>◌, pure, raise, lift,
  transaction,
}
use flowcontrol.Statement.{
  Conn, Session, execute, returning_event, reads, engine, landed, appended, begin_in, commit_in,
  rollback_in, answered_commit,
}
use flowcontrol.Statement.Syntax.{Statement}
use flowcontrol.Statement.Effect.{effect}
use flowcontrol.Statement.Events.{EventValues, insert_event, with_event}

-- The session's state after an outcome.
abbrev pub after {ℓ} : {A : Type ℓ} → Outcome Conn A → Conn
after (done a c) = c
after (fail e c) = c

abbrev pub Saved : (Db → Type 0) → Option Db → Type 0
Saved P none = Unit {0}
Saved P (some d) = P d

-- The predicate holds of the database, and of the one that a rollback would bring back.
pub record On (P : Db → Type 0) (c : Conn) : Type 0 where
  pub now : P c.db
  pub before : Saved P c.saved

-- No statement makes the predicate false.
abbrev pub ByStatement : (Db → Type 0) → Type 0
ByStatement P = (host : Host) (st : Statement) (d d' : Db) → effect host st d ≡ ok d' → P d → P d'

-- What an invariant has to be shown for.
pub record Preserves (P : Db → Type 0) : Type 0 where
  pub by_statement : ByStatement P
  pub by_event :
      (host : Host) (v : EventValues) (d : Db) (e : EventRow)
      → insert_event host v d ≡ ok e
      → P d
      → P (with_event e d)

pub record Keeps {ℓ} {A : Type ℓ} (P : Db → Type 0) (m : Session A) : Type ℓ where
  pub at : (c : Conn) → On P c → On P (after (m c))
  -- a transaction that is open at the start is open at the end, and rolls back to the same
  pub same : (c : Conn) (d : Db) → c.saved ≡ some d → (after (m c)).saved ≡ some d

module _ {ℓ} {A : Type ℓ} where
  lift_same :
      (r : DResult A) (c : Conn) (d : Db) → c.saved ≡ some d → (after (lift r c)).saved ≡ some d
  lift_same (ok a) c d h = h
  lift_same (err e) c d h = h

module _ {ℓ} {A : Type ℓ} {P : Db → Type 0} where
  pub Keeps-pure : (a : A) → Keeps P (pure a)
  Keeps-pure a = record { at = λ c h. h; same = λ c d h. h }

  pub Keeps-raise : (e : DomainError) → Keeps P (raise {A = A} e)
  Keeps-raise e = record { at = λ c h. h; same = λ c d h. h }

  lift_at : (r : DResult A) (c : Conn) → On P c → On P (after (lift r c))
  lift_at (ok a) c h = h
  lift_at (err e) c h = h

  pub Keeps-lift : (r : DResult A) → Keeps P (lift r)
  Keeps-lift r = record { at = lift_at r; same = lift_same r }

  pub Keeps-reads : (f : Db → A) → Keeps P (reads f)
  Keeps-reads f = record { at = λ c h. h; same = λ c d h. h }

  pub Keeps-if : (b : Bool) (m n : Session A) → Keeps P m → Keeps P n → Keeps P (if b then m else n)
  Keeps-if true m n km kn = km
  Keeps-if false m n km kn = kn

module _ {ℓ κ} {A : Type ℓ} {B : Type κ} {P : Db → Type 0} where
  continue_at :
      (r : Outcome Conn A) (f : A → Session B)
      → ((a : A) → Keeps P (f a))
      → On P (after r)
      → On P (after (continue r f))
  continue_at (done a c) f kf h = (kf a).at c h
  continue_at (fail e c) f kf h = h

  continue_same :
      (r : Outcome Conn A) (f : A → Session B)
      → ((a : A) → Keeps P (f a))
      → (d : Db) → (after r).saved ≡ some d
      → (after (continue r f)).saved ≡ some d
  continue_same (done a c) f kf d h = (kf a).same c d h
  continue_same (fail e c) f kf d h = h

  pub Keeps-bind :
      (m : Session A) (f : A → Session B)
      → Keeps P m
      → ((a : A) → Keeps P (f a))
      → Keeps P (m >>= f)
  Keeps-bind m f km kf = record {
    at = λ c h. continue_at (m c) f kf (km.at c h);
    same = λ c d h. continue_same (m c) f kf d (km.same c d h);
  }

  pub Keeps-seq : (m : Session A) (n : Session B) → Keeps P m → Keeps P n → Keeps P (m >> n)
  Keeps-seq m n km kn = record {
    at = λ c h. continue_at (m c) (λ _. n) (λ _. kn) (km.at c h);
    same = λ c d h. continue_same (m c) (λ _. n) (λ _. kn) d (km.same c d h);
  }

roll_back_at {ℓ} :
    (A : Type ℓ) {P : Db → Type 0} (host : Host) (e : DomainError) (s : Option Db) (c : Conn)
    → P c.db
    → Saved P c.saved
    → Saved P s
    → On P (after (roll_back_with {A = A} (engine host) e (rollback_in s c)))
roll_back_at A host e none c h b r = record { now = h; before = b }
roll_back_at A host e (some d) c h b r = record { now = r; before = tt }

module _ {ℓ} {A : Type ℓ} (P : Db → Type 0) (host : Host) where
  answered_at :
      (a : A) (o : Option String) (c : Conn)
      → P c.db
      → Saved P c.saved
      → On P (after (commit_with (engine host) a (answered_commit o c)))
  answered_at a none c h b = record { now = h; before = tt }
  answered_at a (some text) c h b = record { now = h; before = b }

  commit_at :
      (a : A) (s : Option Db) (c : Conn)
      → P c.db
      → Saved P c.saved
      → On P (after (commit_with (engine host) a (commit_in host s c)))
  commit_at a none c h b = record { now = h; before = b }
  commit_at a (some d) c h b = answered_at a (host.refuse_commit c.db) c h b

  close_at : (r : Outcome Conn A) → On P (after r) → On P (after (close (engine host) r))
  close_at (done a c) h = commit_at a c.saved c h.now h.before
  close_at (fail e c) h = roll_back_at A host e c.saved c h.now h.before h.before

  transaction_at :
      (f : Session A) (s : Option Db) (c : Conn)
      → Keeps P f
      → P c.db
      → Saved P c.saved
      → On P (after (continue (begin_in s c) (λ _ c'. close (engine host) (f c'))))
  transaction_at f none c kf h b = close_at (f _) (kf.at _ (record { now = h; before = h }))
  transaction_at f (some d) c kf h b = record { now = h; before = b }

  transaction_same :
      (f : Session A) (s : Option Db) (c : Conn) (d : Db)
      → c.saved ≡ some d
      → s ≡ some d
      → (after (continue (begin_in s c) (λ _ c'. close (engine host) (f c')))).saved ≡ some d
  transaction_same f none c d e q = absurd cc
  transaction_same f (some x) c d e q = e

pub Keeps-transaction {ℓ} :
    {A : Type ℓ} {P : Db → Type 0} (host : Host) (f : Session A)
    → Keeps P f
    → Keeps P (transaction (engine host) f)
unfolding transaction
Keeps-transaction {P} host f kf = record {
  at = λ c h. transaction_at P host f c.saved c kf h.now h.before;
  same = λ c d h. transaction_same P host f c.saved c d h h;
}

module _ {P : Db → Type 0} (keep : ByStatement P) where
  execute_at :
      (host : Host) (st : Statement) (c : Conn) (r : DResult Db)
      → effect host st c.db ≡ r
      → On P c
      → On P (after (landed c r))
  execute_at host st c (ok d) e h = record { now = keep host st c.db d e h.now; before = h.before }
  execute_at host st c (err x) e h = h

  landed_same :
      (c : Conn) (r : DResult Db) (d : Db) → c.saved ≡ some d → (after (landed c r)).saved ≡ some d
  landed_same c (ok x) d h = h
  landed_same c (err x) d h = h

  pub Keeps-execute : (host : Host) (st : Statement) → Keeps P (execute host st)
  unfolding execute
  Keeps-execute host st = record {
    at = λ c h. execute_at host st c (effect host st c.db) refl h;
    same = λ c d h. landed_same c (effect host st c.db) d h;
  }

module _ {P : Db → Type 0} (keep : Preserves P) where
  event_at :
      (host : Host) (v : EventValues) (c : Conn) (r : DResult EventRow)
      → insert_event host v c.db ≡ r
      → On P c
      → On P (after (appended c r))
  event_at host v c (ok e) p h = record {
    now = keep.by_event host v c.db e p h.now;
    before = h.before;
  }
  event_at host v c (err x) p h = h

  appended_same :
      (c : Conn) (r : DResult EventRow) (d : Db)
      → c.saved ≡ some d
      → (after (appended c r)).saved ≡ some d
  appended_same c (ok e) d h = h
  appended_same c (err x) d h = h

  pub Keeps-returning_event : (host : Host) (v : EventValues) → Keeps P (returning_event host v)
  unfolding returning_event
  Keeps-returning_event host v = record {
    at = λ c h. event_at host v c (insert_event host v c.db) refl h;
    same = λ c d h. appended_same c (insert_event host v c.db) d h;
  }
