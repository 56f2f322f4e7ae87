-- ===== src/Store/Told.antt =====
-- flowcore/src/store.rs: what an operation adds to the log is in the events of its mutation. `Tells`
-- carries the events that were appended so far through an operation, to those that it returns.
pub mod Rules
pub mod Reports
pub mod Helpers
pub mod Operations
pub mod More
pub mod Removal
pub mod Requests
use flowcontrol.Common.{
  Bool, true, false, String, Option, none, some, List, [], ◌∷◌, ◌++◌, ℕ, Among-split, ◌≡◌, refl,
  sym, subst, ap, ◌∙◌, ◌⊎◌, inl, inr, Among, Among-left, Among-right, Among-keep_if, if◌then◌else◌,
}
use flowcontrol.Error.{DomainError, DResult, ok, err}
use flowcontrol.Schema.{Db, Host, EventRow}
use flowcontrol.Sql.{
  Outcome, done, fail, continue, close, commit_with, roll_back_with, ◌>>=◌, ◌>>◌, pure, raise, lift,
  transaction,
}
use flowcontrol.Message.{Event}
use flowcontrol.Statement.{
  Conn, Session, returning_event, engine, appended, begin_in, commit_in, rollback_in,
}
use flowcontrol.Statement.Events.{EventValues, insert_event, with_event}
use flowcontrol.Store.Keeps.{after, Saved, On, ByStatement, Keeps}
use flowcontrol.Store.Invariant.Log.{Thinned, effect-Thinned, insert_event-eq-ok}
use flowcontrol.Store.Reads.Faithful.{event_message, proto_event-event_cells}
use flowcontrol.Store.Rows.{event_cells, proto_event}
use flowcontrol.Store.Helpers.{append_event}

-- Each event of the log stood in the log of `base`, or is told of.
pub record Known (base : Db) (told : List Event) (d : Db) : Type 0 where
  pub each : (e : EventRow) → Among e d.events → Among e base.events ⊎ Among (event_message e) told

-- All of one project.
abbrev pub Of : String → List Event → Type 0
Of p [] = Unit
Of p (e ∷ es) = (e.project_id ≡ p) × Of p es

pub Of-append : (p : String) (es fs : List Event) → Of p es → Of p fs → Of p (es ++ fs)
Of-append p [] fs h k = k
Of-append p (e ∷ es) fs h k = (h.0, Of-append p es fs h.1 k)

kept_events :
    (base d d' : Db) (told : List Event) → Thinned d d' → Known base told d → Known base told d'
kept_events base d d' told (inl q) k = record {
  each = λ e a. k.each e (subst (Among e) (ap (λ (x : List EventRow × ℕ). x.0) q) a);
}
kept_events base d d' told (inr (p, q)) k = record {
  each = λ e a.
      k.each e
        (Among-keep_if p e d.events (subst (Among e) (ap (λ (x : List EventRow × ℕ). x.0) q) a));
}

-- A statement adds no event.
pub Known-statement : (base : Db) (told : List Event) → ByStatement (Known base told)
Known-statement base told host st d d' e k =
    kept_events base d d' told (effect-Thinned host st d d' e) k

more-Known :
    (base d : Db) (told : List Event) (ev : Event)
    → Known base told d
    → Known base (told ++ ev ∷ []) d
more-Known base d told ev k = record {
  each = λ e a. elim (k.each e a) [
    | inl old ↦ inl old
    | inr new ↦ inr (Among-left (event_message e) told (ev ∷ []) new)
  ];
}

pub Known-event :
    (base d : Db) (told : List Event) (row : EventRow)
    → Known base told d
    → Known base (told ++ event_message row ∷ []) (with_event row d)
Known-event base d told row k = record {
  each = λ e a. elim (Among-split e d.events (row ∷ []) a) [
    | inl old ↦ (more-Known base d told (event_message row) k).each e old
    | inr (inl q) ↦
        inr (Among-right (event_message e) told (event_message row ∷ []) (inl (ap event_message q)))
    | inr (inr h) ↦ absurd h
  ];
}

pub more-Saved :
    (base : Db) (told : List Event) (ev : Event) (o : Option Db)
    → Saved (Known base told) o
    → Saved (Known base (told ++ ev ∷ [])) o
more-Saved base told ev none h = tt
more-Saved base told ev (some d) h = more-Known base d told ev h
