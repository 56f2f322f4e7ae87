-- ===== src/Schema/Cycle/Reachable.antt =====
-- Walks in the table `dependencies`, as flowcore/migrations/0001_initial_schema.sql keeps it, and
-- what the recursive query of its trigger finds: the nodes that a walk leads to.
use flowcontrol.Common.{
  ℕ, zero, suc, ◌+◌, ◌≤◌, ◌<◌, ◌≡◌, refl, ◌⊎◌, inl, inr, ◌↔◌, true, false, String, none, some, List,
  [], ◌∷◌, ◌==◌, eq_iff, eq_refl, arith, length, mem_str, if◌then◌else◌, Option-cases, Bool-cases,
  subst,
}
use flowcontrol.Schema.{DependencyRow}
use flowcontrol.Schema.Cycle.{next_row, downstream, closes_cycle}

-- There is a row (a, b).
abbrev pub Edge : List DependencyRow → String → String → Type 0
Edge [] a b = ⊥
Edge (d ∷ ds) a b = ((d.blocker_id ≡ a) × (d.blocked_id ≡ b)) ⊎ Edge ds a b

-- A walk along the edges, of any length.
pub data Reach (ds : List DependencyRow) (a : String) : String → Type 0 where
  here : Reach ds a a
  step : {b c : String} → Reach ds a b → Edge ds b c → Reach ds a c

abbrev pub In : String → List String → Type 0
In x seen = mem_str x seen ≡ true

-- The set holds what an edge leads to from it.
abbrev Closed : List DependencyRow → List String → Type 0
Closed ds seen = (a b : String) → Edge ds a b → In a seen → In b seen

-- The edges that lead out of the set.
missing : List DependencyRow → List String → ℕ
missing [] seen = 0
missing (d ∷ ds) seen = (if mem_str d.blocked_id seen then 0 else 1) + missing ds seen

missing-le : (ds : List DependencyRow) (seen : List String) → missing ds seen ≤ length ds
unfolding missing
missing-le [] seen = omega arith
missing-le (d ∷ ds) seen = ground (arith, missing-le ds seen)

missing-cons :
    (ds : List DependencyRow) (y : String) (seen : List String)
    → missing ds (y ∷ seen) ≤ missing ds seen
unfolding missing
missing-cons [] y seen = omega arith
missing-cons (d ∷ ds) y seen = ground (arith, missing-cons ds y seen)

-- A new row of the query is reached from the set, and is one edge less to go.
record Grows (ds : List DependencyRow) (seen : List String) (y : String) : Type 0 where
  from : String
  seen_from : In from seen
  edge : Edge ds from y
  fresh : mem_str y seen ≡ false
  less : missing ds (y ∷ seen) < missing ds seen

grow_later :
    (d : DependencyRow) (ds : List DependencyRow) (seen : List String) (y : String)
    → Grows ds seen y
    → Grows (d ∷ ds) seen y
unfolding missing
grow_later d ds seen y g = record {
  from = g.from;
  seen_from = g.seen_from;
  edge = inr g.edge;
  fresh = g.fresh;
  less = ground (arith, g.less);
}

grow_now :
    (d : DependencyRow) (ds : List DependencyRow) (seen : List String)
    → In d.blocker_id seen
    → mem_str d.blocked_id seen ≡ false
    → Grows (d ∷ ds) seen d.blocked_id
unfolding missing
grow_now d ds seen h k = record {
  from = d.blocker_id;
  seen_from = h;
  edge = inl (refl, refl);
  fresh = k;
  less = ground (arith, missing-cons ds d.blocked_id seen, eq_refl d.blocked_id);
}

next_row-some :
    (ds : List DependencyRow) (seen : List String) (y : String)
    → next_row ds seen ≡ some y
    → Grows ds seen y
unfolding next_row
next_row-some [] seen y h = cc
next_row-some (d ∷ ds) seen y h = elim (Bool-cases (mem_str d.blocker_id seen)) [
  | inl a ↦ elim (Bool-cases (mem_str d.blocked_id seen)) [
    | inl b ↦ grow_later d ds seen y (next_row-some ds seen y (ground arith))
    | inr b ↦ subst (Grows (d ∷ ds) seen) (ground arith) (grow_now d ds seen a b)
  ]
  | inr a ↦ grow_later d ds seen y (next_row-some ds seen y (ground arith))
]

next_row-none :
    (ds : List DependencyRow) (seen : List String) → next_row ds seen ≡ none → Closed ds seen
unfolding next_row
next_row-none [] seen h a b e m = absurd e
next_row-none (d ∷ ds) seen h a b (inl (p, q)) m = ground arith
next_row-none (d ∷ ds) seen h a b (inr e) m = next_row-none ds seen (ground arith) a b e m

-- Every node that the query finds is reached by a walk from the start.
downstream_sound :
    (start : String) (fuel : ℕ) (ds : List DependencyRow) (seen : List String)
    → ((x : String) → In x seen → Reach ds start x)
    → (x : String) → In x (downstream fuel ds seen)
    → Reach ds start x
unfolding downstream
downstream_sound start zero ds seen h x m = h x m
downstream_sound start (suc fuel) ds seen h x m = elim (Option-cases (next_row ds seen)) [
  | inl e ↦ h x (rw (e, downstream) at m)
  | inr (y, e) ↦
      downstream_sound start fuel ds (y ∷ seen) (grown y (next_row-some ds seen y e)) x
        (rw (e, downstream) at m)
]
  where
    grown : (y : String) → Grows ds seen y → (z : String) → In z (y ∷ seen) → Reach ds start z
    grown y g z k = elim (Bool-cases (y == z)) [
      | inl p ↦ subst (Reach ds start) ((eq_iff y z).0 p) (step (h g.from g.seen_from) g.edge)
      | inr p ↦ h z (ground arith)
    ]

no_missing : (ds : List DependencyRow) (seen : List String) → missing ds seen ≡ 0 → Closed ds seen
unfolding missing
no_missing [] seen h a b e m = absurd e
no_missing (d ∷ ds) seen h a b (inl (p, q)) m = ground arith
no_missing (d ∷ ds) seen h a b (inr e) m = no_missing ds seen (ground arith) a b e m

-- With fuel for the missing edges the set that it ends with is closed, and holds the start.
downstream-Closed :
    (fuel : ℕ) (ds : List DependencyRow) (seen : List String)
    → missing ds seen ≤ fuel
    → Closed ds (downstream fuel ds seen)
unfolding downstream
downstream-Closed zero ds seen h = no_missing ds seen (omega arith)
downstream-Closed (suc fuel) ds seen h = elim (Option-cases (next_row ds seen)) [
  | inl e ↦ rw (e, downstream) (next_row-none ds seen e)
  | inr (y, e) ↦
      let g = next_row-some ds seen y e in
      rw (e, downstream) (downstream-Closed fuel ds (y ∷ seen) (omega (arith, g.less)))
]

downstream_grows :
    (fuel : ℕ) (ds : List DependencyRow) (seen : List String) (x : String)
    → In x seen
    → In x (downstream fuel ds seen)
unfolding downstream
downstream_grows zero ds seen x m = m
downstream_grows (suc fuel) ds seen x m = elim (Option-cases (next_row ds seen)) [
  | inl e ↦ rw (e, downstream) m
  | inr (y, e) ↦ rw (e, downstream) (downstream_grows fuel ds (y ∷ seen) x (ground arith))
]

Closed-Reach :
    (ds : List DependencyRow) (seen : List String) (a : String)
    → Closed ds seen
    → In a seen
    → {b : String} → Reach ds a b
    → In b seen
Closed-Reach ds seen a h m here = m
Closed-Reach ds seen a h m (step {b} {c} r e) = h b c e (Closed-Reach ds seen a h m r)

-- The trigger's test: an edge from `blocker` to `blocked` closes a cycle exactly when a walk leads
-- from `blocked` to `blocker`.
pub closes_cycle_iff :
    (ds : List DependencyRow) (blocker blocked : String)
    → (closes_cycle ds blocker blocked ≡ true) ↔ Reach ds blocked blocker
unfolding closes_cycle
closes_cycle_iff ds blocker blocked = (
  downstream_sound blocked (length ds) ds (blocked ∷ []) alone blocker,
  λ r.
      Closed-Reach ds (downstream (length ds) ds (blocked ∷ [])) blocked
        (downstream-Closed (length ds) ds (blocked ∷ []) (missing-le ds (blocked ∷ [])))
        (downstream_grows (length ds) ds (blocked ∷ []) blocked (ground (arith, eq_refl blocked)))
        r,
)
  where
    alone : (x : String) → In x (blocked ∷ []) → Reach ds blocked x
    alone x m = subst (Reach ds blocked) ((eq_iff blocked x).0 (ground arith)) here
