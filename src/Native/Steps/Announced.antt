-- ===== src/Native/Steps/Announced.antt =====
-- flowd/src/store/mod.rs: every event that the daemon commits is published or waits to be.
use flowcontrol.Common.{
  Bool, true, false, String, Bool-cases, Option-cases, some, none, List, [], ◌∷◌, ◌++◌, ◌≡◌, refl,
  sym, subst, ap, ◌∙◌, ◌⊎◌, inl, inr, Among, AnyOf, AnyOf-left, AnyOf-right, AnyOf-split,
}
use mathlib.Core.List.{append_assoc, append-nil}
use flowcontrol.Error.{ok}
use flowcontrol.Schema.{Db, Host, EventRow}
use flowcontrol.Sql.{Outcome, done, fail}
use flowcontrol.Message.{Event, Mutation}
use flowcontrol.Statement.{Conn}
use flowcontrol.Store.Keeps.{Saved, after}
use flowcontrol.Store.Keeps.Dispatch.{dispatch-Keeps}
use flowcontrol.Store.Invariant.Rows.{IsSound, Sound-Preserves}
use flowcontrol.Store.Reads.Faithful.{event_message}
use flowcontrol.Store.Dispatch.{Request, Answer, mutation, dispatch}
use flowcontrol.Store.Told.{Of}
use flowcontrol.Store.Told.Requests.{told_of, dispatch-tells, failed-Known}
use flowcontrol.Native.{
  NativeStore, Notified, Fate, returns, panics, panics_locked, returned, spawn_blocking, on_session,
  notified, publish, result_of, conn_of,
}
use flowcontrol.Native.Steps.{
  System, owed, serve_task, Step, task, tell, Step-poisoned, Reach, here, next,
}

abbrev pub log_of : System → List EventRow
log_of s = s.store.conn.db.events

-- The mutex is not poisoned and no transaction is open: no task has panicked while it held the mutex, and
-- no COMMIT was refused.
pub record IsLive (s : System) : Type 0 where
  pub unpoisoned : s.store.poisoned ≡ false
  pub closed : s.store.conn.saved ≡ none

-- A mutation has the event, among events of one project.
abbrev pub Carries : EventRow → Mutation → Type 0
Carries e m = ((p : String) × Of p m.events) × Among (event_message e) m.events

-- A notification has the event, and goes to the watchers of its project.
abbrev pub Announces : EventRow → Notified → Type 0
Announces e n = (n.project_id ≡ e.project_id) × Among (event_message e) n.events

-- How a system stands to an earlier one: what it has sent since, and where the events are that it has
-- committed since.
pub record Follows (log : List EventRow) (sent : List Notified) (s : System) : Type 0 where
  pub news : List Notified
  pub sent_since : s.store.sent ≡ sent ++ news
  pub sound : IsSound s.store.conn.db
  pub known :
      (e : EventRow)
      → Among e (log_of s)
      → Among e log ⊎ (AnyOf (Carries e) s.pending ⊎ AnyOf (Announces e) news)

Of-Among : (p : String) (es : List Event) (x : Event) → Of p es → Among x es → x.project_id ≡ p
Of-Among p [] x o a = absurd a
Of-Among p (e ∷ es) x o (inl q) = ap (λ (y : Event). y.project_id) q ∙ o.0
Of-Among p (e ∷ es) x o (inr a) = Of-Among p es x o.1 a

-- The publishing of a mutation announces its events.
notified-Announces :
    (e : EventRow) (m : Mutation) (es : List Event)
    → m.events ≡ es
    → Carries e m
    → AnyOf (Announces e) (notified m es)
notified-Announces e m [] q h = absurd (subst (Among (event_message e)) q h.1)
notified-Announces e m (first ∷ rest) q h =
    let of = subst (Of h.0.0) q h.0.1 in
    inl (of.0 ∙ sym (Of-Among h.0.0 m.events (event_message e) h.0.1 h.1), h.1)

module _ (log : List EventRow) (sent : List Notified) where
  told_Follows :
      (store : NativeStore) (before : List Mutation) (m : Mutation) (behind : List Mutation)
      → Follows log sent (record { store = store; pending = before ++ m ∷ behind })
      → Follows log sent (record { store = publish m store; pending = before ++ behind })
  unfolding publish
  told_Follows store before m behind f = record {
    news = f.news ++ notified m m.events;
    sent_since =
        ap (λ l. l ++ notified m m.events) f.sent_since
        ∙ append_assoc sent f.news (notified m m.events);
    sound = f.sound;
    known = λ e a. elim (f.known e a) [
      | inl old ↦ inl old
      | inr (inl owes) ↦ elim (AnyOf-split (Carries e) before (m ∷ behind) owes) [
        | inl b ↦ inr (inl (AnyOf-left (Carries e) before behind b))
        | inr (inl h) ↦ inr (
            inr (
              AnyOf-right (Announces e) f.news (notified m m.events)
                (notified-Announces e m m.events refl h)))
        | inr (inr b) ↦ inr (inl (AnyOf-right (Carries e) before behind b))
      ]
      | inr (inr new) ↦ inr (inr (AnyOf-left (Announces e) f.news (notified m m.events) new))
    ];
  }

  abbrev system : Bool → Conn → List Notified → List Mutation → System
  system poisoned c out pending = record {
    store = record { conn = c; poisoned = poisoned; sent = out };
    pending = pending;
  }

  -- The events of an answer are owed by its handler.
  owes_answer :
      (e : EventRow) (a : Answer)
      → ((p : String) × Of p (told_of a))
      → Among (event_message e) (told_of a)
      → AnyOf (Carries e) (owed (returned (ok a)))
  owes_answer e (mutation m) o h = inl (o, h)
  owes_answer e _ o h = absurd h

  Sound-after :
      (host : Host) (req : Request) (c : Conn)
      → c.saved ≡ none
      → IsSound c.db
      → IsSound (after (dispatch host req c)).db
  Sound-after host req c n h =
      ((dispatch-Keeps Sound-Preserves host req).at c
        (record { now = h; before = subst (Saved IsSound) (sym n) tt })).now

  served :
      (host : Host) (req : Request) (c : Conn) (out : List Notified) (pending : List Mutation)
      (r : Outcome Conn Answer)
      → dispatch host req c ≡ r
      → c.saved ≡ none
      → (conn_of r).saved ≡ none
      → Follows log sent (system false c out pending)
      → Follows log sent (system false (conn_of r) out (pending ++ owed (returned (result_of r))))
  served host req c out pending (done a c') q n n' f = record {
    news = f.news;
    sent_since = f.sent_since;
    sound = subst (λ x. IsSound (after x).db) q (Sound-after host req c n f.sound);
    known = λ e h.
        let t = dispatch-tells host req c c' a n q in
        elim (t.1 e h) [
          | inl old ↦ elim (f.known e old) [
            | inl o ↦ inl o
            | inr (inl owes) ↦ inr (inl (AnyOf-left (Carries e) pending _ owes))
            | inr (inr new) ↦ inr (inr new)
          ]
          | inr new ↦ inr (inl (AnyOf-right (Carries e) pending _ (owes_answer e a t.0 new)))
        ];
  }
  served host req c out pending (fail x c') q n n' f = record {
    news = f.news;
    sent_since = f.sent_since;
    sound = subst (λ x. IsSound (after x).db) q (Sound-after host req c n f.sound);
    known = λ e h. elim ((failed-Known host req c c' x n n' f.sound q).now.each e h) [
      | inl old ↦ elim (f.known e old) [
        | inl o ↦ inl o
        | inr (inl owes) ↦ inr (inl (AnyOf-left (Carries e) pending [] owes))
        | inr (inr new) ↦ inr (inr new)
      ]
      | inr new ↦ absurd new
    ];
  }

  -- A task that panics before it has the mutex.
  idle :
      (b : Bool) (c : Conn) (out : List Notified) (pending : List Mutation)
      → Follows log sent (system b c out pending)
      → Follows log sent (system b c out (pending ++ []))
  idle b c out pending f =
      subst (λ l. Follows log sent (system b c out l)) (sym (append-nil pending)) f

  task_Follows :
      (fate : Fate) (host : Host) (req : Request) (b : Bool) (c : Conn) (out : List Notified)
      (pending : List Mutation)
      → c.saved ≡ none
      → IsLive (serve_task fate host req (system b c out pending))
      → Follows log sent (system b c out pending)
      → Follows log sent (serve_task fate host req (system b c out pending))
  unfolding serve_task spawn_blocking on_session
  task_Follows returns host req true c out pending n l f = absurd (cc l.unpoisoned)
  task_Follows returns host req false c out pending n l f =
      served host req c out pending (dispatch host req c) refl n l.closed f
  task_Follows (panics text) host req b c out pending n l f = idle b c out pending f
  task_Follows (panics_locked text c') host req b c out pending n l f = absurd (cc l.unpoisoned)

  Step-Follows :
      {s t : System} → Step s t → IsLive s → IsLive t → Follows log sent s → Follows log sent t
  Step-Follows (task fate host req s) b l f =
      task_Follows fate host req s.store.poisoned s.store.conn s.store.sent s.pending b.closed l f
  Step-Follows (tell store before m behind) b l f = told_Follows store before m behind f

-- A transaction that stands open stays open, as long as the mutex is not poisoned.
on_session_open :
    (host : Host) (req : Request) (b : Bool) (s : NativeStore) (d : Db)
    → s.conn.saved ≡ some d
    → (on_session b (dispatch host req) s).1.conn.saved ≡ some d
unfolding on_session
on_session_open host req true s d h = h
on_session_open host req false s d h =
    conn_after (dispatch host req s.conn)
      ((dispatch-Keeps Sound-Preserves host req).same s.conn d h)
  where
    conn_after : (r : Outcome Conn Answer) → (after r).saved ≡ some d → (conn_of r).saved ≡ some d
    conn_after (done a c) e = e
    conn_after (fail x c) e = e

task_open :
    (fate : Fate) (host : Host) (req : Request) (s : System) (d : Db)
    → (serve_task fate host req s).store.poisoned ≡ false
    → s.store.conn.saved ≡ some d
    → (serve_task fate host req s).store.conn.saved ≡ some d
unfolding serve_task spawn_blocking
task_open returns host req s d l h = on_session_open host req s.store.poisoned s.store d h
task_open (panics text) host req s d l h = h
task_open (panics_locked text c) host req s d l h = absurd (cc l)

Step-open :
    {s t : System}
    → Step s t
    → (d : Db) → t.store.poisoned ≡ false
    → s.store.conn.saved ≡ some d
    → t.store.conn.saved ≡ some d
unfolding publish
Step-open (task fate host req s) d l h = task_open fate host req s d l h
Step-open (tell store before m behind) d l h = h

-- A system that is live was so at every step before.
Step-IsLive : {s t : System} → Step s t → IsLive t → IsLive s
Step-IsLive {s} {t} st l = record {
  unpoisoned = elim (Bool-cases s.store.poisoned) [
    | inl p ↦ absurd (cc (Step-poisoned st p, l.unpoisoned))
    | inr p ↦ p
  ];
  closed = elim (Option-cases s.store.conn.saved) [
    | inl n ↦ n
    | inr (d, e) ↦ absurd (cc (Step-open st d l.unpoisoned e, l.closed))
  ];
}

pub Reach-IsLive : {s t : System} → Reach s t → IsLive t → IsLive s
Reach-IsLive here l = l
Reach-IsLive (next r st) l = Reach-IsLive r (Step-IsLive st l)

-- Tasks run and publish in whatever order, from a system with sound rows, to one whose mutex is not
-- poisoned and where no transaction is open, so no task panicked while it held the mutex and no COMMIT
-- was refused. Then the log holds nothing but what it held, what is pending and what was announced since
-- to the watchers of its project.
pub Reach-Follows :
    {s t : System}
    → Reach s t
    → IsSound s.store.conn.db
    → IsLive t
    → Follows (log_of s) s.store.sent t
Reach-Follows {s} here h l = record {
  news = [];
  sent_since = sym (append-nil s.store.sent);
  sound = h;
  known = λ e a. inl a;
}
Reach-Follows {s} (next r st) h l =
    let before = Step-IsLive st l in
    Step-Follows (log_of s) s.store.sent st before l (Reach-Follows r h before)
