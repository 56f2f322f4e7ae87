-- ===== src/Schema/View/Ready.antt =====
-- The view node_state of flowcore/migrations/0001_initial_schema.sql: when an open node is READY.
use flowcontrol.Common.{
  Bool, true, false, String, some, List, [], ◌∷◌, ◌≡◌, refl, inl, inr, ◌↔◌, ◌==◌, eq_iff, any,
  arith, Bool-cases, Option-cases, ◌&&◌, ap, ◌∙◌,
}
use flowcontrol.Schema.{NodeRow, DependencyRow, Db}
use flowcontrol.Schema.Checks.{node_at}
use flowcontrol.Schema.Cycle.Reachable.{Edge}
use flowcontrol.Schema.View.{is_open, has_open_blocker, effective}

-- Each node that blocks `id` is DONE.
abbrev pub Unblocked : Db → String → Type 0
Unblocked d id =
    (b : String)
    → Edge d.dependencies b id
    → (r : NodeRow) → node_at d.nodes b ≡ some r
    → r.declared_status ≡ "DONE"

open_blocker : List NodeRow → String → DependencyRow → Bool
open_blocker nodes id e = e.blocked_id == id && is_open (node_at nodes e.blocker_id)

is_open-eq-false : (r : NodeRow) → is_open (some r) ≡ false → r.declared_status ≡ "DONE"
is_open-eq-false r h = (eq_iff r.declared_status "DONE").0 (ground arith)

is_open-done : (r : NodeRow) → r.declared_status ≡ "DONE" → is_open (some r) ≡ false
is_open-done r h = rw h refl

none_open :
    (nodes : List NodeRow) (id : String) (ds : List DependencyRow)
    → any (open_blocker nodes id) ds ≡ false
    → (b : String) → Edge ds b id
    → (r : NodeRow) → node_at nodes b ≡ some r
    → r.declared_status ≡ "DONE"
unfolding open_blocker
none_open nodes id [] h b q r e = absurd q
none_open nodes id (x ∷ ds) h b (inl q) r e =
    is_open-eq-false r (blocker_closed (ap (λ o. is_open o) (ap (node_at nodes) q.0 ∙ e)))
  where
    blocker_closed :
        is_open (node_at nodes x.blocker_id) ≡ is_open (some r) → is_open (some r) ≡ false
    blocker_closed g = ground (arith, (eq_iff x.blocked_id id).1 q.1)
none_open nodes id (x ∷ ds) h b (inr q) r e = none_open nodes id ds (ground arith) b q r e

closed_edge :
    (nodes : List NodeRow) (x : DependencyRow)
    → ((r : NodeRow) → node_at nodes x.blocker_id ≡ some r → r.declared_status ≡ "DONE")
    → is_open (node_at nodes x.blocker_id) ≡ false
closed_edge nodes x h = elim (Option-cases (node_at nodes x.blocker_id)) [
  | inl e ↦ rw e refl
  | inr (r, e) ↦ rw e (is_open-done r (h r e))
]

all_closed :
    (nodes : List NodeRow) (id : String) (ds : List DependencyRow)
    → ((b : String)
        → Edge ds b id
        → (r : NodeRow) → node_at nodes b ≡ some r
        → r.declared_status ≡ "DONE")
    → any (open_blocker nodes id) ds ≡ false
unfolding open_blocker
all_closed nodes id [] h = refl
all_closed nodes id (x ∷ ds) h =
    let rest = all_closed nodes id ds (λ b q. h b (inr q)) in
    elim (Bool-cases (x.blocked_id == id)) [
      | inl e ↦ ground (
        arith,
        rest,
        closed_edge nodes x (h x.blocker_id (inl (refl, (eq_iff x.blocked_id id).0 e))),
      )
      | inr e ↦ ground (arith, rest)
    ]

has_open_blocker_iff : (d : Db) (id : String) → (has_open_blocker d id ≡ false) ↔ Unblocked d id
unfolding has_open_blocker open_blocker
has_open_blocker_iff d id =
    (none_open d.nodes id d.dependencies, all_closed d.nodes id d.dependencies)

-- A node whose declared status is OPEN is READY exactly when each node that has an edge to it is DONE.
pub effective-ready_iff :
    (d : Db) (n : NodeRow)
    → n.declared_status ≡ "OPEN"
    → (effective d n ≡ "READY") ↔ Unblocked d n.id
unfolding effective
effective-ready_iff d n o = elim (Bool-cases (has_open_blocker d n.id)) [
  | inl e ↦
      (λ h. absurd (cc (blocked e, h)), λ u. absurd (cc (e, (has_open_blocker_iff d n.id).1 u)))
  | inr e ↦ (λ h. (has_open_blocker_iff d n.id).0 e, λ u. rw (o, e) refl)
]
  where
    blocked : has_open_blocker d n.id ≡ true → effective d n ≡ "BLOCKED"
    blocked e = rw (o, e) refl
