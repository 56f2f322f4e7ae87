-- ===== src/Schema/Cycle/Acyclic.antt =====
-- The dependency table of flowcore/migrations/0001_initial_schema.sql as a graph without cycles.
use flowcontrol.Common.{
  ◌≡◌, ◌⊎◌, inl, inr, Bool, true, false, String, List, [], ◌∷◌, ◌++◌, keep_if, if◌then◌else◌, sym,
  subst,
}
use flowcontrol.Schema.{DependencyRow}
use flowcontrol.Schema.Cycle.Reachable.{Edge, Reach, here, step}

-- No edge is followed by a walk back to its start.
abbrev pub Acyclic : List DependencyRow → Type 0
Acyclic ds = (a b : String) → Edge ds a b → ¬ Reach ds b a

-- Fewer edges.
abbrev pub Within : List DependencyRow → List DependencyRow → Type 0
Within es ds = (a b : String) → Edge es a b → Edge ds a b

Reach-mono :
    {es ds : List DependencyRow} → Within es ds → {a b : String} → Reach es a b → Reach ds a b
Reach-mono h here = here
Reach-mono h (step {b} {c} r e) = step (Reach-mono h r) (h b c e)

Reach-trans :
    {ds : List DependencyRow} {a b c : String} → Reach ds a b → Reach ds b c → Reach ds a c
Reach-trans r here = r
Reach-trans r (step s e) = step (Reach-trans r s) e

pub Within-Acyclic : (es ds : List DependencyRow) → Within es ds → Acyclic ds → Acyclic es
Within-Acyclic es ds h g a b e r = g a b (h a b e) (Reach-mono h r)

kept-Edge :
    (p : Bool) (d : DependencyRow) (es ds : List DependencyRow) (a b : String)
    → (Edge es a b → Edge ds a b)
    → Edge (if p then d ∷ es else es) a b
    → Edge (d ∷ ds) a b
kept-Edge true d es ds a b h (inl q) = inl q
kept-Edge true d es ds a b h (inr q) = inr (h q)
kept-Edge false d es ds a b h q = inr (h q)

pub keep_if-Within : (p : DependencyRow → Bool) (ds : List DependencyRow) → Within (keep_if p ds) ds
keep_if-Within p [] a b e = e
keep_if-Within p (d ∷ ds) a b e =
    kept-Edge (p d) d (keep_if p ds) ds a b (keep_if-Within p ds a b) e

-- The edges of a table with one more row are its own and that row's.
abbrev Is : DependencyRow → String → String → Type 0
Is d a b = (d.blocker_id ≡ a) × (d.blocked_id ≡ b)

Edge-snoc :
    (ds : List DependencyRow) (d : DependencyRow) (a b : String)
    → Edge (ds ++ d ∷ []) a b
    → Edge ds a b ⊎ Is d a b
Edge-snoc [] d a b (inl q) = inr q
Edge-snoc [] d a b (inr q) = absurd q
Edge-snoc (x ∷ ds) d a b (inl q) = inl (inl q)
Edge-snoc (x ∷ ds) d a b (inr q) = later (Edge-snoc ds d a b q)
  where
    later : Edge ds a b ⊎ Is d a b → Edge (x ∷ ds) a b ⊎ Is d a b
    later (inl e) = inl (inr e)
    later (inr e) = inr e

-- A walk over the new row splits at it.
Reach-snoc :
    (ds : List DependencyRow) (d : DependencyRow) {a b : String}
    → Reach (ds ++ d ∷ []) a b
    → Reach ds a b ⊎ (Reach ds a d.blocker_id × Reach ds d.blocked_id b)
Reach-snoc ds d here = inl here
Reach-snoc ds d {a} (step {b} {c} r e) = joined (Reach-snoc ds d r) (Edge-snoc ds d b c e)
  where
    joined :
        Reach ds a b ⊎ (Reach ds a d.blocker_id × Reach ds d.blocked_id b)
        → Edge ds b c ⊎ Is d b c
        → Reach ds a c ⊎ (Reach ds a d.blocker_id × Reach ds d.blocked_id c)
    joined (inl w) (inl q) = inl (step w q)
    joined (inl w) (inr q) =
        inr (subst (Reach ds a) (sym q.0) w, subst (Reach ds d.blocked_id) q.1 here)
    joined (inr (w, v)) (inl q) = inr (w, step v q)
    joined (inr (w, v)) (inr q) = inr (w, subst (Reach ds d.blocked_id) q.1 here)

-- A row whose blocked node does not lead to its blocker closes no cycle.
pub snoc-Acyclic :
    (ds : List DependencyRow) (d : DependencyRow)
    → Acyclic ds
    → ¬ Reach ds d.blocked_id d.blocker_id
    → Acyclic (ds ++ d ∷ [])
snoc-Acyclic ds d g h a b e r = cases (Edge-snoc ds d a b e) (Reach-snoc ds d r)
  where
    cases :
        Edge ds a b ⊎ Is d a b
        → Reach ds b a ⊎ (Reach ds b d.blocker_id × Reach ds d.blocked_id a)
        → ⊥
    cases (inl q) (inl w) = g a b q w
    cases (inl q) (inr (w, v)) = h (Reach-trans v (Reach-trans (step here q) w))
    cases (inr q) (inl w) =
        h (subst (Reach ds d.blocked_id) (sym q.0) (subst (λ x. Reach ds x a) (sym q.1) w))
    cases (inr q) (inr (w, v)) = h (subst (λ x. Reach ds x d.blocker_id) (sym q.1) w)
