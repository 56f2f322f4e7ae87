-- ===== src/Schema/Tree/Below.antt =====
-- flowcore/migrations/0001_initial_schema.sql: the cascade of a delete on a sound hierarchy. No chain of
-- children is longer than the table, so the generations that the recursive query takes are all.
use flowcontrol.Common.{
  ℕ, zero, suc, ◌+◌, ◌≤◌, ◌≡◌, ◌≢◌, refl, sym, subst, ap, ◌∙◌, ◌⊎◌, inl, inr, true, false, String,
  Option, none, some, List, [], ◌∷◌, ◌++◌, ◌==◌, eq_iff, eq_refl, length, Among, arith, Bool-cases,
  Option-cases,
}
use flowcontrol.Schema.{NodeRow}
use flowcontrol.Schema.Checks.{node_at, node_checks}
use flowcontrol.Schema.Cascade.{children_of, below, subtree}
use flowcontrol.Schema.Cycle.Reachable.{In}
use flowcontrol.Schema.Rows.{Sound}
use flowcontrol.Schema.Tree.{Tree, rank, rank-parent_kind, node_at-Among, Among-node_at}
use flowcontrol.Schema.Tree.Children.{
  In-left, In-right, In-split, children_of_sound, children_of_complete,
}

Sound-checks : (ns : List NodeRow) (n : NodeRow) → Sound ns → Among n ns → node_checks n ≡ true
Sound-checks [] n s a = absurd a
Sound-checks (m ∷ ns) n s (inl q) = subst (λ y. node_checks y ≡ true) (sym q) s.0
Sound-checks (m ∷ ns) n s (inr a) = Sound-checks ns n s.2 a

one_member : (ns : List NodeRow) (n : NodeRow) → Among n ns → 1 ≤ length ns
one_member [] n a = absurd a
one_member (m ∷ ns) n a = omega arith

two_members :
    (ns : List NodeRow) (n m : NodeRow) → Among n ns → Among m ns → n.kind ≢ m.kind → 2 ≤ length ns
two_members [] n m a b d = absurd a
two_members (o ∷ ns) n m (inl p) (inl q) d = absurd (d (ap (λ (y : NodeRow). y.kind) (p ∙ sym q)))
two_members (o ∷ ns) n m (inr a) b d = omega (arith, one_member ns n a)
two_members (o ∷ ns) n m a (inr b) d = omega (arith, one_member ns m b)

step_has_parent : (n : NodeRow) → node_checks n ≡ true → n.kind ≡ "STEP" → n.parent_id ≢ none
unfolding node_checks
step_has_parent n c k e =
    let w : (n.kind == "WORK_PACKAGE") ≡ false =
      subst (λ x. (x == "WORK_PACKAGE") ≡ false) (sym k) refl in
    absurd (ground (arith, w, e, c))

ranks_differ : (n p : NodeRow) → rank n.kind ≡ suc (rank p.kind) → n.kind ≢ p.kind
ranks_differ n p u e = absurd (omega (arith, u, ap rank e))

same_row : {n p : NodeRow} → Option.some n ≡ some p → n ≡ p
same_row h = cc

found_once :
    (ns : List NodeRow) (x : String) (n p : NodeRow)
    → node_at ns x ≡ some n
    → node_at ns x ≡ some p
    → n ≡ p
found_once ns x n p g h = same_row (sym g ∙ h)

children_nil : (ns : List NodeRow) → children_of ns [] ≡ []
unfolding children_of
children_nil [] = refl
children_nil (n ∷ ns) = children_nil ns

List-cases {ℓ} : {A : Type ℓ} (l : List A) → (l ≡ []) ⊎ ((x : A) × (xs : List A) × (l ≡ x ∷ xs))
List-cases [] = inl refl
List-cases (x ∷ xs) = inr (x, xs, refl)

module _ (ns : List NodeRow) (t : Tree ns) where
  -- A child's rank is one more than its parent's.
  parent_row :
      (n : NodeRow) (x : String)
      → Among n ns
      → n.parent_id ≡ some x
      → (p : NodeRow) × (node_at ns x ≡ some p) × (rank n.kind ≡ suc (rank p.kind))
  parent_row n x a e = elim (t.placed n a) [
    | inl q ↦ absurd (cc (q, e))
    | inr h ↦ (
      h.row,
      subst (λ y. node_at ns y ≡ some h.row) (same h.id x (cc (h.named, e))) h.found,
      rank-parent_kind n.kind h.row.kind h.above,
    )
  ]
    where
      same : (a b : String) → some a ≡ some b → a ≡ b
      same a b q = cc

  rank-le-length : (n : NodeRow) → Among n ns → rank n.kind ≤ length ns
  unfolding rank
  rank-le-length n a = elim (Bool-cases (n.kind == "TASK")) [
    | inl q ↦ rw q (one_member ns n a)
    | inr q ↦ elim (Bool-cases (n.kind == "STEP")) [
      | inl r ↦ rw (q, r) (step_and_task ((eq_iff n.kind "STEP").0 r))
      | inr r ↦ rw (q, r) (omega arith)
    ]
  ]
    where
      step_and_task : n.kind ≡ "STEP" → 2 ≤ length ns
      step_and_task k = elim (t.placed n a) [
        | inl e ↦ absurd (step_has_parent n (Sound-checks ns n t.sound a) k e)
        | inr h ↦
            two_members ns n h.row a (node_at-Among ns h.id h.row h.found)
              (ranks_differ n h.row (rank-parent_kind n.kind h.row.kind h.above))
      ]

  Level : ℕ → List String → Type 0
  Level r ids = (x : String) (p : NodeRow) → In x ids → node_at ns x ≡ some p → rank p.kind ≡ r

  Level-children : (r : ℕ) (ids : List String) → Level r ids → Level (suc r) (children_of ns ids)
  unfolding Level
  Level-children r ids l y p i f =
      let (n, a, e, (x, named, j)) = children_of_sound ns ids y i in
      let (q, found, up) = parent_row n x a named in
      let same : n ≡ p =
        found_once ns y n p (subst (λ z. node_at ns z ≡ some n) e (Among-node_at ns n t.sound a))
          f in
      subst (λ (z : NodeRow). rank z.kind ≡ suc r) same (omega (arith, up, l x q j found))

  below_closed :
      (fuel r : ℕ) (ids : List String)
      → Level r ids
      → ((n : NodeRow) → Among n ns → rank n.kind ≤ r + fuel)
      → (n : NodeRow) (x : String) → Among n ns
      → n.parent_id ≡ some x
      → In x (ids ++ below fuel ns ids)
      → In n.id (below fuel ns ids)
  unfolding below Level
  below_closed zero r ids l top n x a e i =
      let (p, found, up) = parent_row n x a e in
      elim (In-split x ids [] i) [
        | inl j ↦ absurd (omega (arith, up, l x p j found, top n a))
        | inr j ↦ absurd (cc j)
      ]
  below_closed (suc fuel) r ids l top n x a e i =
      let kids = children_of ns ids in
      elim (In-split x ids (kids ++ below fuel ns kids) i) [
        | inl j ↦ In-left n.id kids (below fuel ns kids) (children_of_complete ns ids n x a e j)
        | inr j ↦ In-right n.id kids (below fuel ns kids) (
            below_closed fuel (suc r) kids (Level-children r ids l) (λ m b. omega (arith, top m b))
              n x a e j)
      ]

  below_nil : (fuel : ℕ) → below fuel ns [] ≡ []
  unfolding below
  below_nil zero = refl
  below_nil (suc fuel) = rw (children_nil ns) (below_nil fuel)

  no_children :
      (r : ℕ) (ids : List String)
      → Level r ids
      → ((n : NodeRow) → Among n ns → rank n.kind ≤ r)
      → children_of ns ids ≡ []
  unfolding Level
  no_children r ids l top = elim (List-cases (children_of ns ids)) [
    | inl e ↦ e
    | inr (y, ys, e) ↦
        let (n, a, q, (x, named, j)) =
          children_of_sound ns ids y (subst (In y) (sym e) (rw (eq_refl y) refl)) in
        let (p, found, up) = parent_row n x a named in
        absurd (omega (arith, up, l x p j found, top n a))
  ]

  below_enough :
      (fuel n r : ℕ) (ids : List String)
      → Level r ids
      → ((m : NodeRow) → Among m ns → rank m.kind ≤ r + fuel)
      → fuel ≤ n
      → below n ns ids ≡ below fuel ns ids
  unfolding below
  below_enough zero zero r ids l top h = refl
  below_enough zero (suc n) r ids l top h =
      rw (no_children r ids l (λ m b. omega (arith, top m b))) (below_nil n)
  below_enough (suc fuel) zero r ids l top h = absurd (omega (arith, h))
  below_enough (suc fuel) (suc n) r ids l top h =
      ap (λ x. children_of ns ids ++ x)
        (below_enough fuel n (suc r) (children_of ns ids) (Level-children r ids l)
          (λ m b. omega (arith, top m b)) (omega (arith, h)))

  -- The level of one node.
  Level-one : (id : String) → (r : ℕ) × Level r (id ∷ [])
  unfolding Level
  Level-one id = elim (Option-cases (node_at ns id)) [
    | inl e ↦ (0, λ x p i f. absurd (cc (e, at_id x p i f)))
    | inr (n, e) ↦ (
      rank n.kind,
      λ x p i f. ap (λ (y : NodeRow). rank y.kind) (found_once ns id p n (at_id x p i f) e),
    )
  ]
    where
      at_id :
          (x : String) (p : NodeRow)
          → In x (id ∷ [])
          → node_at ns x ≡ some p
          → node_at ns id ≡ some p
      at_id x p i f = elim (Bool-cases (id == x)) [
        | inl q ↦ subst (λ y. node_at ns y ≡ some p) (sym ((eq_iff id x).0 q)) f
        | inr q ↦ absurd (ground (arith, q, i))
      ]

  -- On a sound hierarchy, a child of a node that goes with a deleted node goes with it.
  pub subtree-closed :
      (id x : String) (n : NodeRow)
      → Among n ns
      → n.parent_id ≡ some x
      → In x (subtree ns id)
      → In n.id (subtree ns id)
  unfolding subtree
  subtree-closed id x n a e i =
      let (r, l) = Level-one id in
      In-right n.id (id ∷ []) (below (length ns) ns (id ∷ [])) (
        below_closed (length ns) r (id ∷ []) l (λ m b. omega (arith, rank-le-length m b)) n x a e i)

-- On a sound hierarchy the recursive query for a subtree ends: it takes no more rows, however many more
-- generations it is run for than the table has rows.
pub below-ends :
    (ns : List NodeRow) (id : String) (fuel : ℕ)
    → Tree ns
    → length ns ≤ fuel
    → below fuel ns (id ∷ []) ≡ below (length ns) ns (id ∷ [])
below-ends ns id fuel t h =
    let (r, l) = Level-one ns t id in
    below_enough ns t (length ns) fuel r (id ∷ []) l (λ m b. omega (arith, rank-le-length ns t m b))
      h
