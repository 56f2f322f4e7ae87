-- ===== src/Statement.antt =====
-- The writing SQL statements of flowcore/src/store.rs, each one constructor with its parameters, and
-- what the engine does with one over the schema (`Effect`): triggers first, then CHECKs, the primary
-- key and the foreign keys. `OR IGNORE` skips a row that a CHECK or the primary key refuses, and
-- nothing else. `execute` runs a statement on a connection; an ABORT leaves the database as it was.
pub mod Syntax
pub mod Nodes
pub mod Edges
pub mod Projects
pub mod Events
pub mod Inversion
pub mod EdgeInversion
pub mod Effect
use flowcontrol.Common.{ℤ, Bool, String, Option, none, some, concat, ◌∷◌, [], if◌then◌else◌}
use flowcontrol.Error.{DomainError, DResult, ok, err, internal_error, from_db_message}
use Events.{EventValues, insert_event, with_event}
use flowcontrol.Schema.{EventRow, Db, Host}
use flowcontrol.Sql.{Outcome, done, fail, Run, Control}
use Syntax.{Statement}
use Effect.{effect}

-- A connection: the database, and what it was at BEGIN while a transaction is open.
pub record Conn : Type 0 where
  pub db : Db
  pub saved : Option Db

abbrev pub Session {ℓ} : Type ℓ → Type ℓ
Session A = Run Conn A

abbrev pub landed : Conn → DResult Db → Outcome Conn (Unit {0})
landed c (ok d) = done tt (record c { db = d })
landed c (err e) = fail e c

-- `Session::execute`.
unfoldable pub execute : Host → Statement → Session (Unit {0})
execute host st c = landed c (effect host st c.db)

abbrev pub appended : Conn → DResult EventRow → Outcome Conn EventRow
appended c (ok e) = done e (record c { db = with_event e c.db })
appended c (err e) = fail e c

-- `Session::query_one` of `INSERT INTO events … RETURNING`.
unfoldable pub returning_event : Host → EventValues → Session EventRow
returning_event host v c = appended c (insert_event host v c.db)

-- A read: `Session::query` of a SELECT, where the engine itself does not fail.
abbrev pub reads {ℓ} : {A : Type ℓ} → (Db → A) → Session A
reads f c = done (f c.db) c

-- BEGIN, COMMIT and ROLLBACK of the engine.
abbrev pub begin_in : Option Db → Conn → Outcome Conn (Unit {0})
begin_in none c = done tt (record c { saved = some c.db })
begin_in (some d) c = fail (internal_error "cannot start a transaction within a transaction") c

-- A COMMIT that is refused leaves the transaction open.
abbrev pub answered_commit : Option String → Conn → Outcome Conn (Unit {0})
answered_commit none c = done tt (record c { saved = none })
answered_commit (some text) c = fail (from_db_message text) c

abbrev pub commit_in : Host → Option Db → Conn → Outcome Conn (Unit {0})
commit_in host none c = fail (internal_error "cannot commit - no transaction is active") c
commit_in host (some d) c = answered_commit (host.refuse_commit c.db) c

abbrev pub rollback_in : Option Db → Conn → Outcome Conn (Unit {0})
rollback_in none c = fail (internal_error "cannot rollback - no transaction is active") c
rollback_in (some d) c = done tt (record { db = d; saved = none })

abbrev pub engine : Host → Control Conn
engine host = record {
  begin = λ c. begin_in c.saved c;
  commit = λ c. commit_in host c.saved c;
  rollback = λ c. rollback_in c.saved c;
}
