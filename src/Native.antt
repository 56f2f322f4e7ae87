-- ===== src/Native.antt =====
-- flowd/src/store/mod.rs and flowd/src/store/watch.rs: the store of the daemon. It runs each
-- operation as a task on a pool of blocking threads, on the one connection behind a mutex
-- (flowcore/src/sql.rs), and sends the mutation of a write to the watchers.
pub mod Methods
pub mod Steps
use flowcontrol.Common.{ℤ, Bool, true, false, String, List, [], ◌∷◌, ◌++◌, concat}
use flowcontrol.Error.{DResult, ok, err, internal_error}
use flowcontrol.Message.{Event, Node, Progress, Mutation}
use flowcontrol.Sql.{Outcome, done, fail}
use flowcontrol.Statement.{Conn, Session}

pub record Notified : Type 0 where
  pub project_id : String
  pub seq : ℤ
  pub events : List Event
  pub changed_nodes : List Node
  pub changed_progress : List Progress

-- The core and the notifier. `sent` is all that was ever sent on the broadcast channel, in order;
-- a mutex is poisoned by a thread that panics while it holds it.
pub record NativeStore : Type 0 where
  pub conn : Conn
  pub poisoned : Bool
  pub sent : List Notified

-- What tokio's `JoinHandle` yields: the task's result, or its panic as a text.
pub data Joined {ℓ} (A : Type ℓ) : Type ℓ where
  returned : A → Joined A
  panicked : String → Joined A

-- How a task ends: its code runs to the end, or it panics, without the mutex or with it. With it, the
-- connection is left at any point of the operation.
pub data Fate : Type 0 where
  returns : Fate
  panics : String → Fate
  panics_locked : String → Conn → Fate

abbrev pub result_of {ℓ} : {A : Type ℓ} → Outcome Conn A → DResult A
result_of (done a c) = ok a
result_of (fail e c) = err e

abbrev pub conn_of {ℓ} : {A : Type ℓ} → Outcome Conn A → Conn
conn_of (done a c) = c
conn_of (fail e c) = c

-- `RusqliteSql::session`, then the operation on the session.
unfoldable pub on_session {ℓ} :
    {A : Type ℓ} → Bool → Session A → NativeStore → DResult A × NativeStore
on_session true m s = (err (internal_error "store mutex poisoned"), s)
on_session false m s = (result_of (m s.conn), record s { conn = conn_of (m s.conn) })

-- `spawn_blocking(f).await`
unfoldable pub spawn_blocking {ℓ} :
    {A : Type ℓ} → Fate → Session A → NativeStore → Joined (DResult A) × NativeStore
unfolding on_session
spawn_blocking returns m s = let (r, s') = on_session s.poisoned m s in (returned r, s')
spawn_blocking (panics text) m s = (panicked text, s)
spawn_blocking (panics_locked text c) m s = (panicked text, record s { conn = c; poisoned = true })

-- `.map_err(…)?` on what was joined.
abbrev pub joined {ℓ} : {A : Type ℓ} → Joined (DResult A) → DResult A
joined (returned r) = r
joined (panicked text) = err (internal_error (concat ("db task panicked: " ∷ text ∷ [])))

unfoldable pub offload {ℓ} : {A : Type ℓ} → Fate → Session A → NativeStore → DResult A × NativeStore
unfolding spawn_blocking
offload fate m s = let (r, s') = spawn_blocking fate m s in (joined r, s')

-- A mutation without events is not sent.
abbrev pub notified : Mutation → List Event → List Notified
notified m [] = []
notified m (first ∷ rest) =
    record {
      project_id = first.project_id;
      seq = m.seq;
      events = m.events;
      changed_nodes = m.changed_nodes;
      changed_progress = m.changed_progress;
    }
    ∷ []

unfoldable pub publish : Mutation → NativeStore → NativeStore
publish m s = record s { sent = s.sent ++ notified m m.events }

abbrev pub published : DResult Mutation × NativeStore → DResult Mutation × NativeStore
published (ok m, s) = (ok m, publish m s)
published (err e, s) = (err e, s)

-- `write_pub!`
unfoldable pub write_pub : Fate → Session Mutation → NativeStore → DResult Mutation × NativeStore
unfolding offload publish
write_pub fate m s = published (offload fate m s)
