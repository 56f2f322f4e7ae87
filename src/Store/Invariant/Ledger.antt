-- ===== src/Store/Invariant/Ledger.antt =====
-- The ledger of idempotency keys, over each statement of flowcore/src/store.rs.
use flowcontrol.Common.{
  ◌≡◌, refl, sym, subst, inl, inr, Bool, true, false, String, Option, some, List, [], ◌∷◌, ◌++◌,
  find, any, arith, ap, ◌∙◌, Bool-cases,
}
use flowcontrol.Error.{ok, ok-injective}
use flowcontrol.Schema.{Db, Host, IdempotencyRow}
use flowcontrol.Schema.Cascade.{remove_nodes}
use flowcontrol.Statement.Syntax.{
  Statement, insert_node, insert_or_ignore_node, update_node, update_place, delete_node,
  insert_or_ignore_dependency, delete_dependency, upsert_agent, upsert_verdict,
  insert_or_ignore_key, insert_project,
}
use flowcontrol.Statement.Nodes.{node_of_values, set_column, set_place}
use flowcontrol.Statement.Edges.{delete_edge, insert_key, same_key}
use flowcontrol.Statement.Projects.{insert_project_row}
use flowcontrol.Statement.Effect.{effect}
use flowcontrol.Statement.Events.{insert_event}
use flowcontrol.Statement.Inversion.{
  delete_node_row-cases, insert_node_row-eq-ok, update_node_column-eq-ok, update_node_place-eq-ok,
}
use flowcontrol.Statement.EdgeInversion.{insert_edge-eq-ok, upsert-others}
use flowcontrol.Store.Keeps.{Preserves}
use flowcontrol.Store.Reads.{ledger_at}

-- The ledger holds the entry under the key of the project.
pub record Remembers (scope key : String) (entry : IdempotencyRow) (d : Db) : Type 0 where
  pub recorded : ledger_at d scope key ≡ some entry

find-append :
    (p : IdempotencyRow → Bool) (l m : List IdempotencyRow) (r : IdempotencyRow)
    → find p l ≡ some r
    → find p (l ++ m) ≡ some r
find-append p [] m r h = absurd cc
find-append p (x ∷ l) m r h = elim (Bool-cases (p x)) [
  | inl q ↦ rw q (sym (at_head q) ∙ h)
  | inr q ↦ rw q (find-append p l m r (sym (past_head q) ∙ h))
]
  where
    at_head : p x ≡ true → find p (x ∷ l) ≡ some x
    at_head q = rw q refl

    past_head : p x ≡ false → find p (x ∷ l) ≡ find p l
    past_head q = rw q refl

module _ (scope key : String) (entry : IdempotencyRow) where
  same_ledger :
      (d d' : Db)
      → d'.idempotency ≡ d.idempotency
      → Remembers scope key entry d
      → Remembers scope key entry d'
  same_ledger d d' e h = record { recorded = ap (find (same_key scope key)) e ∙ h.recorded }

  insert_key-Remembers :
      (host : Host) (scope' key' : String) (seq : _) (entity : Option String) (d : Db)
      → Remembers scope key entry d
      → Remembers scope key entry (insert_key host scope' key' seq entity d)
  unfolding insert_key
  insert_key-Remembers host scope' key' seq entity d h =
      elim (Bool-cases (any (same_key scope' key') d.idempotency)) [
        | inl q ↦ rw q h
        | inr q ↦ rw q (record {
          recorded = find-append (same_key scope key) d.idempotency _ entry h.recorded;
        })
      ]

  effect-Remembers :
      (host : Host) (st : Statement) (d d' : Db)
      → effect host st d ≡ ok d'
      → Remembers scope key entry d
      → Remembers scope key entry d'
  unfolding effect remove_nodes
  effect-Remembers host (insert_node v) d d' e h =
      elim (insert_node_row-eq-ok false host (node_of_values host v) d d' e) [
        | inl same ↦ subst (Remembers scope key entry) (sym same) h
        | inr i ↦ same_ledger d d' (ap (λ (x : Db). x.idempotency) i.result) h
      ]
  effect-Remembers host (insert_or_ignore_node v) d d' e h =
      elim (insert_node_row-eq-ok true host (node_of_values host v) d d' e) [
        | inl same ↦ subst (Remembers scope key entry) (sym same) h
        | inr i ↦ same_ledger d d' (ap (λ (x : Db). x.idempotency) i.result) h
      ]
  effect-Remembers host (update_node id c) d d' e h =
      elim (update_node_column-eq-ok host id (set_column c) d d' e) [
        | inl same ↦ subst (Remembers scope key entry) (sym same) h
        | inr u ↦ same_ledger d d' (ap (λ (x : Db). x.idempotency) u.result) h
      ]
  effect-Remembers host (update_place parent kind at id) d d' e h =
      elim (update_node_place-eq-ok host (set_place parent kind at) id d d' e) [
        | inl same ↦ subst (Remembers scope key entry) (sym same) h
        | inr p ↦ same_ledger d d' (ap (λ (x : Db). x.idempotency) p.updated.result) h
      ]
  effect-Remembers host (delete_node id) d d' e h = elim (delete_node_row-cases id d) [
    | inl same ↦ subst (Remembers scope key entry) (sym same ∙ ok-injective e) h
    | inr gone ↦ same_ledger d d' (ap (λ (x : Db). x.idempotency) (sym (ok-injective e) ∙ gone)) h
  ]
  effect-Remembers host (insert_or_ignore_dependency a b) d d' e h =
      elim (insert_edge-eq-ok host a b d d' e) [
        | inl same ↦ subst (Remembers scope key entry) (sym same) h
        | inr l ↦ same_ledger d d' (ap (λ (x : Db). x.idempotency) l.result) h
      ]
  effect-Remembers host (delete_dependency a b) d d' e h =
      same_ledger d d' (unfold delete_edge in ground arith) h
  effect-Remembers host (upsert_agent id result name detail) d d' e h =
      same_ledger d d' (ap (λ (x : Db). x.idempotency) (upsert-others host id _ d d' e).1) h
  effect-Remembers host (upsert_verdict id verdict) d d' e h =
      same_ledger d d' (ap (λ (x : Db). x.idempotency) (upsert-others host id _ d d' e).1) h
  effect-Remembers host (insert_or_ignore_key scope' key' seq entity) d d' e h =
      subst (Remembers scope key entry) (ok-injective e)
        (insert_key-Remembers host scope' key' seq entity d h)
  effect-Remembers host (insert_project id name text) d d' e h =
      same_ledger d d' (unfold insert_project_row in ground arith) h
  effect-Remembers host _ d d' e h = same_ledger d d' (ground arith) h

  -- Every statement and every event keeps the entry.
  pub Remembers-Preserves : Preserves (Remembers scope key entry)
  unfolding insert_event
  Remembers-Preserves = record {
    by_statement = effect-Remembers;
    by_event = λ host v d e p h. record { recorded = h.recorded };
  }
