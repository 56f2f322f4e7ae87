-- ===== src/Store/Told/Rules.antt =====
-- flowcore/src/store.rs: `Tells` carries the events that were appended so far through an operation, to
-- those that it returns, with a rule for each way to build an operation.
use flowcontrol.Common.{
  Bool, true, false, String, Option, none, some, List, [], ◌∷◌, ◌++◌, ◌≡◌, refl, sym, subst, ap,
  ◌∙◌, if◌then◌else◌,
}
use flowcontrol.Error.{DomainError, DResult, ok, err}
use flowcontrol.Schema.{Db, Host, EventRow}
use flowcontrol.Sql.{
  Outcome, done, fail, continue, close, commit_with, roll_back_with, ◌>>=◌, ◌>>◌, pure, raise, lift,
  transaction,
}
use flowcontrol.Message.{Event}
use flowcontrol.Statement.{
  Conn, Session, returning_event, engine, appended, begin_in, commit_in, answered_commit,
  rollback_in,
}
use flowcontrol.Statement.Events.{EventValues, insert_event, with_event}
use flowcontrol.Store.Keeps.{after, On, Keeps}
use flowcontrol.Store.Invariant.Log.{insert_event-eq-ok}
use flowcontrol.Store.Reads.Faithful.{event_message, proto_event-event_cells}
use flowcontrol.Store.Rows.{event_cells, proto_event}
use flowcontrol.Store.Helpers.{append_event}
use flowcontrol.Store.Told.{Known, Of, Of-append, Known-event, more-Saved}

-- At the end of a computation that returned: what it has told of.
abbrev pub Heard {ℓ} : {A : Type ℓ} → String → Db → (A → List Event) → Outcome Conn A → Type 0
Heard p base f (done a c) = Of p (f a) × On (Known base (f a)) c
Heard p base f (fail e c) = Unit

-- A computation that starts when `prior` is told of, and that, if it returns `a`, has told of `f a`.
pub record Tells {ℓ} {A : Type ℓ} (p : String) (prior : List Event) (m : Session A)
    (f : A → List Event) : Type ℓ where
  pub at : (base : Db) (c : Conn) → Of p prior → On (Known base prior) c → Heard p base f (m c)

module _ {ℓ} {A : Type ℓ} {p : String} {prior : List Event} where
  pub Tells-pure : (a : A) (f : A → List Event) → prior ≡ f a → Tells p prior (pure a) f
  Tells-pure a f q = record {
    at = λ base c o k. subst (λ l. Of p l × On (Known base l) c) q (o, k);
  }

  pub Tells-raise : (e : DomainError) (f : A → List Event) → Tells p prior (raise e) f
  Tells-raise e f = record { at = λ base c o k. tt }

  pub Tells-if :
      (b : Bool) (m n : Session A) (f : A → List Event)
      → Tells p prior m f
      → Tells p prior n f
      → Tells p prior (if b then m else n) f
  Tells-if true m n f tm tn = tm
  Tells-if false m n f tm tn = tn

module _ {ℓ κ} {A : Type ℓ} {B : Type κ} where
  after_told :
      (p : String) (base : Db) (r : Outcome Conn A) (h : A → List Event) (g : A → Session B)
      (f : B → List Event)
      → Heard p base h r
      → ((a : A) → Tells p (h a) (g a) f)
      → Heard p base f (continue r g)
  after_told p base (done a c) h g f k tg = (tg a).at base c k.0 k.1
  after_told p base (fail e c) h g f k tg = tt

module _ {ℓ κ} {A : Type ℓ} {B : Type κ} {p : String} {prior : List Event} where
  after_silent :
      (base : Db) (r : Outcome Conn A) (g : A → Session B) (f : B → List Event)
      → Of p prior
      → On (Known base prior) (after r)
      → ((a : A) → Tells p prior (g a) f)
      → Heard p base f (continue r g)
  after_silent base (done a c) g f o k tg = (tg a).at base c o k
  after_silent base (fail e c) g f o k tg = tt

  -- First what adds no event.
  pub Tells-silent :
      (m : Session A) (g : A → Session B) (f : B → List Event)
      → ((base : Db) → Keeps (Known base prior) m)
      → ((a : A) → Tells p prior (g a) f)
      → Tells p prior (m >>= g) f
  Tells-silent m g f km tg = record {
    at = λ base c o k. after_silent base (m c) g f o ((km base).at c k) tg;
  }

  pub Tells-silent_seq :
      (m : Session A) (n : Session B) (f : B → List Event)
      → ((base : Db) → Keeps (Known base prior) m)
      → Tells p prior n f
      → Tells p prior (m >> n) f
  Tells-silent_seq m n f km tn = Tells-silent m (λ _. n) f km (λ _. tn)

  pub Tells-bind :
      (m : Session A) (h : A → List Event) (g : A → Session B) (f : B → List Event)
      → Tells p prior m h
      → ((a : A) → Tells p (h a) (g a) f)
      → Tells p prior (m >>= g) f
  Tells-bind m h g f tm tg = record {
    at = λ base c o k. after_told p base (m c) h g f (tm.at base c o k) tg;
  }

module _ {p : String} {prior : List Event} where
  appended_tells :
      (host : Host) (v : EventValues) (base : Db) (c : Conn) (r : DResult EventRow)
      → insert_event host v c.db ≡ r
      → v.project_id ≡ p
      → Of p prior
      → On (Known base prior) c
      → Heard p base
          (λ ev. prior ++ ev ∷ [])
          (continue (appended c r) (λ row. lift (proto_event (event_cells row))))
  appended_tells host v base c (err x) e q o k = tt
  appended_tells host v base c (ok row) e q o k =
      subst
        (λ x.
          Heard p base (λ ev. prior ++ ev ∷ []) (lift x (record c { db = with_event row c.db })))
        (sym (proto_event-event_cells row))
        (
          Of-append p prior (event_message row ∷ []) o
              (ap (λ (x : EventRow). x.project_id) (insert_event-eq-ok host v c.db row e) ∙ q, tt),
          record {
            now = Known-event base c.db prior row k.now;
            before = more-Saved base prior (event_message row) c.saved k.before;
          },
        )

  pub append_event-Tells :
      (host : Host) (node kind author summary payload : String)
      → Tells p prior
          (append_event host p node kind author summary payload)
          (λ ev. prior ++ ev ∷ [])
  unfolding append_event returning_event
  append_event-Tells host node kind author summary payload = record {
    at = λ base c o k. appended_tells host _ base c _ refl refl o k;
  }

module _ {ℓ} {A : Type ℓ} (p : String) (host : Host) where
  committed :
      (base : Db) (a : A) (f : A → List Event) (s : Option Db) (c : Conn)
      → Of p (f a)
      → On (Known base (f a)) c
      → Heard p base f (commit_with (engine host) a (commit_in host s c))
  committed base a f none c o k = tt
  committed base a f (some d) c o k = answered (host.refuse_commit c.db)
    where
      answered :
          (r : Option String) → Heard p base f (commit_with (engine host) a (answered_commit r c))
      answered none = (o, record { now = k.now; before = tt })
      answered (some text) = tt

  closed :
      (base : Db) (f : A → List Event) (r : Outcome Conn A)
      → Heard p base f r
      → Heard p base f (close (engine host) r)
  closed base f (done a c) h = committed base a f c.saved c h.0 h.1
  closed base f (fail e c) h = rolled_back c.saved
    where
      rolled_back :
          (s : Option Db)
          → Heard p base f (roll_back_with {A = A} (engine host) e (rollback_in s c))
      rolled_back none = tt
      rolled_back (some d) = tt

module _ {ℓ} {A : Type ℓ} {p : String} {prior : List Event} (host : Host) where
  begun :
      (base : Db) (m : Session A) (f : A → List Event) (s : Option Db) (c : Conn)
      → Tells p prior m f
      → Of p prior
      → On (Known base prior) c
      → Heard p base f (continue (begin_in s c) (λ _ c'. close (engine host) (m c')))
  begun base m f none c tm o k =
      closed p host base f (m _) (tm.at base _ o (record { now = k.now; before = k.now }))
  begun base m f (some d) c tm o k = tt

  pub Tells-transaction :
      (m : Session A) (f : A → List Event)
      → Tells p prior m f
      → Tells p prior (transaction (engine host) m) f
  unfolding transaction
  Tells-transaction m f tm = record { at = λ base c o k. begun base m f c.saved c tm o k }
