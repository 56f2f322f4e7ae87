-- ===== src/Schema/Tree.antt =====
-- flowcore/migrations/0001_initial_schema.sql: the hierarchy of nodes. A work package stands alone, a
-- task in a work package and a step in a task.
pub mod Changes
pub mod Children
pub mod Below
pub mod Removed
use flowcontrol.Common.{
  ℕ, suc, ◌≡◌, refl, sym, subst, ap, ◌⊎◌, inl, inr, Bool, true, false, String, Option, none, some,
  List, [], ◌∷◌, ◌==◌, eq_iff, eq_refl, find, Among, arith, Bool-cases, if◌then◌else◌, option_map,
}
use flowcontrol.Schema.{NodeRow}
use flowcontrol.Schema.Checks.{node_at, node_checks, parent_kind, child_kind, is, kind_at}
use flowcontrol.Schema.Rows.{Sound}

-- The parent that a row names is there, and of the kind above.
pub record HasParent (nodes : List NodeRow) (n : NodeRow) : Type 0 where
  pub id : String
  pub row : NodeRow
  pub named : n.parent_id ≡ some id
  pub found : node_at nodes id ≡ some row
  pub above : parent_kind n.kind ≡ some row.kind

abbrev pub Placed : List NodeRow → NodeRow → Type 0
Placed nodes n = (n.parent_id ≡ none) ⊎ HasParent nodes n

pub record Tree (nodes : List NodeRow) : Type 0 where
  pub sound : Sound nodes
  pub placed : (n : NodeRow) → Among n nodes → Placed nodes n

-- The number of levels above a kind.
unfoldable pub rank : String → ℕ
rank kind = if kind == "TASK" then 1 else if kind == "STEP" then 2 else 0

some-injective {ℓ} : {A : Type ℓ} {a b : A} → Option.some a ≡ some b → a ≡ b
some-injective h = cc

pub rank-parent_kind :
    (kind above : String) → parent_kind kind ≡ some above → rank kind ≡ suc (rank above)
unfolding rank parent_kind
rank-parent_kind kind above h = elim (Bool-cases (kind == "TASK")) [
  | inl q ↦ rw q (ap (λ k. suc (rank k)) (above_is "WORK_PACKAGE" (cc (named_by q, h))))
  | inr q ↦ elim (Bool-cases (kind == "STEP")) [
    | inl r ↦ rw (q, r) (ap (λ k. suc (rank k)) (above_is "TASK" (cc (stepped q r, h))))
    | inr r ↦ cc (neither q r, h)
  ]
]
  where
    above_is : (k : String) → Option.some k ≡ some above → k ≡ above
    above_is k e = some-injective e

    named_by : (kind == "TASK") ≡ true → parent_kind kind ≡ some "WORK_PACKAGE"
    named_by q = rw q refl

    stepped : (kind == "TASK") ≡ false → (kind == "STEP") ≡ true → parent_kind kind ≡ some "TASK"
    stepped q r = rw (q, r) refl

    neither : (kind == "TASK") ≡ false → (kind == "STEP") ≡ false → parent_kind kind ≡ none
    neither q r = rw (q, r) refl

pub child_kind-parent_kind :
    (kind below : String) → child_kind kind ≡ some below → parent_kind below ≡ some kind
unfolding child_kind parent_kind
child_kind-parent_kind kind below h = elim (Bool-cases (kind == "WORK_PACKAGE")) [
  | inl q ↦
      subst (λ k. parent_kind k ≡ some kind) (below_is "TASK" (cc (first q, h)))
        (ap some (sym ((eq_iff kind "WORK_PACKAGE").0 q)))
  | inr q ↦ elim (Bool-cases (kind == "TASK")) [
    | inl r ↦
        subst (λ k. parent_kind k ≡ some kind) (below_is "STEP" (cc (second q r, h)))
          (ap some (sym ((eq_iff kind "TASK").0 r)))
    | inr r ↦ cc (neither q r, h)
  ]
]
  where
    below_is : (k : String) → Option.some k ≡ some below → k ≡ below
    below_is k e = some-injective e

    first : (kind == "WORK_PACKAGE") ≡ true → child_kind kind ≡ some "TASK"
    first q = rw q refl

    second :
        (kind == "WORK_PACKAGE") ≡ false → (kind == "TASK") ≡ true → child_kind kind ≡ some "STEP"
    second q r = rw (q, r) refl

    neither : (kind == "WORK_PACKAGE") ≡ false → (kind == "TASK") ≡ false → child_kind kind ≡ none
    neither q r = rw (q, r) refl

pub is-eq-true : (a b : Option String) → is a b ≡ true → a ≡ b
is-eq-true none none h = refl
is-eq-true (some a) (some b) h = ap some ((eq_iff a b).0 h)
is-eq-true none (some b) h = cc
is-eq-true (some a) none h = cc

-- A row with a parent is a task or a step.
pub parent_kind-checks :
    (n : NodeRow) (x : String)
    → node_checks n ≡ true
    → n.parent_id ≡ some x
    → (k : String) × (parent_kind n.kind ≡ some k)
unfolding node_checks parent_kind
parent_kind-checks n x c h = elim (Bool-cases (n.kind == "TASK")) [
  | inl q ↦ ("WORK_PACKAGE", rw q refl)
  | inr q ↦ elim (Bool-cases (n.kind == "STEP")) [
    | inl r ↦ ("TASK", rw (q, r) refl)
    | inr r ↦ absurd (ground (arith, q, r, c, h))
  ]
]

pub node_at-id : (ns : List NodeRow) (x : String) (n : NodeRow) → node_at ns x ≡ some n → n.id ≡ x
unfolding node_at
node_at-id [] x n h = cc
node_at-id (m ∷ ns) x n h = elim (Bool-cases (m.id == x)) [
  | inl q ↦
      subst (λ (y : NodeRow). y.id ≡ x) {x = m} {y = n} (ground (arith, q, h)) ((eq_iff m.id x).0 q)
  | inr q ↦ node_at-id ns x n (ground (arith, q, h))
]

pub node_at-Among :
    (ns : List NodeRow) (x : String) (n : NodeRow) → node_at ns x ≡ some n → Among n ns
unfolding node_at
node_at-Among [] x n h = cc
node_at-Among (m ∷ ns) x n h = elim (Bool-cases (m.id == x)) [
  | inl q ↦ inl (ground (arith, q, h))
  | inr q ↦ inr (node_at-Among ns x n (ground (arith, q, h)))
]

-- Where the ids differ, a row is found by its own.
pub Among-node_at :
    (ns : List NodeRow) (n : NodeRow) → Sound ns → Among n ns → node_at ns n.id ≡ some n
unfolding node_at
Among-node_at [] n s a = absurd a
Among-node_at (m ∷ ns) n s (inl q) =
    subst (λ (y : NodeRow). node_at (y ∷ ns) n.id ≡ some n) q (rw (eq_refl n.id) refl)
Among-node_at (m ∷ ns) n s (inr a) = elim (Bool-cases (m.id == n.id)) [
  | inl q ↦
      let same = subst (λ y. node_at ns y ≡ none) ((eq_iff m.id n.id).0 q) s.1 in
      absurd (cc (same, Among-node_at ns n s.2 a))
  | inr q ↦ rw q (Among-node_at ns n s.2 a)
]
