-- ===== src/Store/Invariant/Log.antt =====
-- The event log over the statements of flowcore/src/store.rs: the numbers of AUTOINCREMENT in order.
use flowcontrol.Common.{
  ◌⊎◌, ℕ, ◌≤◌, ◌<◌, ◌≡◌, sym, subst, inl, inr, Bool, true, false, String, List, [], ◌∷◌, ◌++◌,
  arith, ap, keep_if, if◌then◌else◌,
}
use flowcontrol.Error.{ok, ok-injective}
use flowcontrol.Schema.{NodeRow, EventRow, Db, Host}
use flowcontrol.Schema.Cascade.{remove_nodes}
use flowcontrol.Statement.Syntax.{
  Statement, insert_node, insert_or_ignore_node, update_node, update_place, delete_node,
  insert_or_ignore_dependency, delete_dependency, upsert_agent, upsert_verdict,
  insert_or_ignore_key, insert_project,
}
use flowcontrol.Statement.Nodes.{
  insert_node_row, delete_node_row, node_of_values, set_column, set_place,
}
use flowcontrol.Statement.Edges.{delete_edge, insert_key}
use flowcontrol.Statement.Projects.{insert_project_row}
use flowcontrol.Statement.Effect.{effect}
use flowcontrol.Statement.Events.{EventValues, event_row, insert_event}
use flowcontrol.Statement.Inversion.{
  delete_node_row-cases, insert_node_row-eq-ok, update_node_column-eq-ok, update_node_place-eq-ok,
}
use flowcontrol.Statement.EdgeInversion.{insert_edge-eq-ok, upsert-others}
use flowcontrol.Store.Keeps.{Preserves}

-- Strictly increasing numbers, above `low` and up to `high`.
abbrev pub Increasing : ℕ → List EventRow → ℕ → Type 0
Increasing low [] high = low ≤ high
Increasing low (e ∷ es) high = (low < e.seq) × Increasing e.seq es high

pub record IsOrdered (d : Db) : Type 0 where
  pub log : Increasing 0 d.events d.last_seq

Increasing-lower :
    (a b : ℕ) (es : List EventRow) (high : ℕ) → a ≤ b → Increasing b es high → Increasing a es high
Increasing-lower a b [] high h i = omega (arith, h, i)
Increasing-lower a b (e ∷ es) high h i = (omega (arith, h, i.0), i.1)

Increasing-keep_if :
    (p : EventRow → Bool) (low : ℕ) (es : List EventRow) (high : ℕ)
    → Increasing low es high
    → Increasing low (keep_if p es) high
Increasing-keep_if p low [] high i = i
Increasing-keep_if p low (e ∷ es) high i = kept (p e) (Increasing-keep_if p e.seq es high i.1)
  where
    kept :
        (b : Bool)
        → Increasing e.seq (keep_if p es) high
        → Increasing low (if b then e ∷ keep_if p es else keep_if p es) high
    kept true r = (i.0, r)
    kept false r = Increasing-lower low e.seq (keep_if p es) high (omega (arith, i.0)) r

Increasing-snoc :
    (low : ℕ) (es : List EventRow) (high : ℕ) (e : EventRow)
    → high < e.seq
    → Increasing low es high
    → Increasing low (es ++ e ∷ []) e.seq
Increasing-snoc low [] high e h i = (omega (arith, h, i), omega arith)
Increasing-snoc low (x ∷ es) high e h i = (i.0, Increasing-snoc x.seq es high e h i.1)

-- The part of the database that the order is about.
abbrev pub log_of : Db → List EventRow × ℕ
log_of d = (d.events, d.last_seq)

same_log : (d d' : Db) → log_of d' ≡ log_of d → IsOrdered d → IsOrdered d'
same_log d d' e h = record {
  log = subst (λ (p : List EventRow × ℕ). Increasing 0 p.0 p.1) (sym e) h.log;
}

-- What a statement does to the log: nothing, or it removes some events.
abbrev pub Thinned : Db → Db → Type 0
Thinned d d' =
    (log_of d' ≡ log_of d)
    ⊎ ((p : EventRow → Bool) × (log_of d' ≡ (keep_if p d.events, d.last_seq)))

delete_node_row-Thinned : (id : String) (d : Db) → Thinned d (delete_node_row id d)
unfolding remove_nodes
delete_node_row-Thinned id d = elim (delete_node_row-cases id d) [
  | inl e ↦ inl (ap log_of e)
  | inr e ↦ inr (_, ap log_of e)
]

by_insert :
    (host : Host) (ignore : Bool) (new : NodeRow) (d d' : Db)
    → insert_node_row ignore host new d ≡ ok d'
    → log_of d' ≡ log_of d
by_insert host ignore new d d' e = elim (insert_node_row-eq-ok ignore host new d d' e) [
  | inl same ↦ ap log_of same
  | inr i ↦ ap log_of i.result
]

pub effect-Thinned :
    (host : Host) (st : Statement) (d d' : Db) → effect host st d ≡ ok d' → Thinned d d'
unfolding effect
effect-Thinned host (insert_node v) d d' e =
    inl (by_insert host false (node_of_values host v) d d' e)
effect-Thinned host (insert_or_ignore_node v) d d' e =
    inl (by_insert host true (node_of_values host v) d d' e)
effect-Thinned host (update_node id c) d d' e =
    elim (update_node_column-eq-ok host id (set_column c) d d' e) [
      | inl same ↦ inl (ap log_of same)
      | inr u ↦ inl (ap log_of u.result)
    ]
effect-Thinned host (update_place parent kind at id) d d' e =
    elim (update_node_place-eq-ok host (set_place parent kind at) id d d' e) [
      | inl same ↦ inl (ap log_of same)
      | inr p ↦ inl (ap log_of p.updated.result)
    ]
effect-Thinned host (delete_node id) d d' e =
    subst (Thinned d) (ok-injective e) (delete_node_row-Thinned id d)
effect-Thinned host (insert_or_ignore_dependency a b) d d' e =
    elim (insert_edge-eq-ok host a b d d' e) [
      | inl same ↦ inl (ap log_of same)
      | inr l ↦ inl (ap log_of l.result)
    ]
effect-Thinned host (delete_dependency a b) d d' e = inl (unfold delete_edge in ground arith)
effect-Thinned host (upsert_agent id result name detail) d d' e =
    inl (ap log_of (upsert-others host id _ d d' e).1)
effect-Thinned host (upsert_verdict id verdict) d d' e =
    inl (ap log_of (upsert-others host id _ d d' e).1)
effect-Thinned host (insert_or_ignore_key scope key seq entity) d d' e =
    inl (unfold insert_key in ground arith)
effect-Thinned host (insert_project id name text) d d' e =
    inl (unfold insert_project_row in ground arith)
effect-Thinned host _ d d' e = inl (ground arith)

effect-IsOrdered :
    (host : Host) (st : Statement) (d d' : Db)
    → effect host st d ≡ ok d'
    → IsOrdered d
    → IsOrdered d'
effect-IsOrdered host st d d' e h = elim (effect-Thinned host st d d' e) [
  | inl q ↦ same_log d d' q h
  | inr (p, q) ↦ record {
    log =
        subst (λ (x : List EventRow × ℕ). Increasing 0 x.0 x.1) (sym q)
          (Increasing-keep_if p 0 d.events d.last_seq h.log);
  }
]

pub insert_event-eq-ok :
    (host : Host) (v : EventValues) (d : Db) (e : EventRow)
    → insert_event host v d ≡ ok e
    → e ≡ event_row host v d
unfolding insert_event
insert_event-eq-ok host v d e h = ground arith

-- Every statement and every event keeps the log in order.
pub Ordered-Preserves : Preserves IsOrdered
Ordered-Preserves = record {
  by_statement = effect-IsOrdered;
  by_event = λ host v d e p h. record {
    log =
        Increasing-snoc 0 d.events d.last_seq e
          (omega (arith, ap (λ (x : EventRow). x.seq) (insert_event-eq-ok host v d e p))) h.log;
  };
}
