-- ===== src/Store/Told/Reports.antt =====
-- flowcore/src/store.rs: a whole operation, from its reads to the mutation that it returns.
use flowcontrol.Common.{Bool, true, false, String, List, [], ◌≡◌, sym, subst, if◌then◌else◌}
use flowcontrol.Error.{DomainError}
use flowcontrol.Schema.{Db}
use flowcontrol.Sql.{Outcome, done, fail, continue, ◌>>=◌, pure, raise}
use flowcontrol.Message.{Event}
use flowcontrol.Statement.{Conn, Session}
use flowcontrol.Store.Keeps.{after, On, Keeps}
use flowcontrol.Store.Told.{Known, Of}
use flowcontrol.Store.Told.Rules.{Heard, Tells, Tells-pure}

-- At the end of an operation that returned: what it tells of is of one project.
abbrev pub Reported {ℓ} : {A : Type ℓ} → Db → (A → List Event) → Outcome Conn A → Type 0
Reported base f (done a c) = ((p : String) × Of p (f a)) × On (Known base (f a)) c
Reported base f (fail e c) = Unit

pub record Reports {ℓ} {A : Type ℓ} (m : Session A) (f : A → List Event) : Type ℓ where
  pub at : (base : Db) (c : Conn) → On (Known base []) c → Reported base f (m c)

module _ {ℓ} {A : Type ℓ} where
  told-Reported :
      (p : String) (base : Db) (f : A → List Event) (r : Outcome Conn A)
      → Heard p base f r
      → Reported base f r
  told-Reported p base f (done a c) h = ((p, h.0), h.1)
  told-Reported p base f (fail e c) h = tt

  pub Reports-Tells :
      (p : String) (m : Session A) (f : A → List Event) → Tells p [] m f → Reports m f
  Reports-Tells p m f t = record {
    at = λ base c k. told-Reported p base f (m c) (t.at base c tt k);
  }

  pub Reports-pure : (a : A) (f : A → List Event) → f a ≡ [] → Reports (pure a) f
  Reports-pure a f q = Reports-Tells "" (pure a) f (Tells-pure a f (sym q))

  pub Reports-raise : (e : DomainError) (f : A → List Event) → Reports (raise e) f
  Reports-raise e f = record { at = λ base c k. tt }

  pub Reports-if :
      (b : Bool) (m n : Session A) (f : A → List Event)
      → Reports m f
      → Reports n f
      → Reports (if b then m else n) f
  Reports-if true m n f rm rn = rm
  Reports-if false m n f rm rn = rn

  -- What appends nothing.
  silent-Reported :
      (base : Db) (f : A → List Event) (r : Outcome Conn A)
      → ((a : A) → f a ≡ [])
      → On (Known base []) (after r)
      → Reported base f r
  silent-Reported base f (done a c) e k =
      subst (λ l. ((p : String) × Of p l) × On (Known base l) c) (sym (e a)) (("", tt), k)
  silent-Reported base f (fail x c) e k = tt

  pub Reports-none :
      (m : Session A) (f : A → List Event)
      → ((base : Db) → Keeps (Known base []) m)
      → ((a : A) → f a ≡ [])
      → Reports m f
  Reports-none m f km e = record {
    at = λ base c k. silent-Reported base f (m c) e ((km base).at c k);
  }

module _ {ℓ κ} {A : Type ℓ} {B : Type κ} where
  read-Reported :
      (base : Db) (r : Outcome Conn A) (g : A → Session B) (f : B → List Event)
      → On (Known base []) (after r)
      → ((a : A) → Reports (g a) f)
      → Reported base f (continue r g)
  read-Reported base (done a c) g f k rg = (rg a).at base c k
  read-Reported base (fail e c) g f k rg = tt

  pub Reports-read :
      (m : Session A) (g : A → Session B) (f : B → List Event)
      → ((base : Db) → Keeps (Known base []) m)
      → ((a : A) → Reports (g a) f)
      → Reports (m >>= g) f
  Reports-read m g f km rg = record {
    at = λ base c k. read-Reported base (m c) g f ((km base).at c k) rg;
  }

  mapped-Reported :
      (base : Db) (r : Outcome Conn A) (g : A → B) (f : B → List Event)
      → Reported base (λ a. f (g a)) r
      → Reported base f (continue r (λ a. pure (g a)))
  mapped-Reported base (done a c) g f k = k
  mapped-Reported base (fail e c) g f k = tt

  pub Reports-map :
      (m : Session A) (g : A → B) (f : B → List Event)
      → Reports m (λ a. f (g a))
      → Reports (m >>= λ a. pure (g a)) f
  Reports-map m g f rm = record { at = λ base c k. mapped-Reported base (m c) g f (rm.at base c k) }
