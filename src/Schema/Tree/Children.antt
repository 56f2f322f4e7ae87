-- ===== src/Schema/Tree/Children.antt =====
-- flowcore/migrations/0001_initial_schema.sql: the nodes of one generation of the recursive query.
use flowcontrol.Common.{
  ◌≡◌, refl, sym, subst, ◌⊎◌, inl, inr, true, ◌||◌, String, some, List, [], ◌∷◌, ◌++◌, ◌==◌, eq_iff,
  eq_refl, mem_str, Among, arith, Bool-cases,
}
use flowcontrol.Schema.{NodeRow}
use flowcontrol.Schema.Checks.{has_parent, is}
use flowcontrol.Schema.Cascade.{has_parent_in, children_of}
use flowcontrol.Schema.Cycle.Reachable.{In}
use flowcontrol.Schema.Tree.{is-eq-true}

pub mem_str-append :
    (x : String) (xs ys : List String) → mem_str x (xs ++ ys) ≡ (mem_str x xs || mem_str x ys)
mem_str-append x [] ys = refl
mem_str-append x (y ∷ xs) ys = elim (Bool-cases (y == x)) [
  | inl q ↦ rw q refl
  | inr q ↦ rw q (mem_str-append x xs ys)
]

pub In-left : (x : String) (xs ys : List String) → In x xs → In x (xs ++ ys)
In-left x xs ys h = ground (arith, mem_str-append x xs ys, h)

pub In-right : (x : String) (xs ys : List String) → In x ys → In x (xs ++ ys)
In-right x xs ys h = elim (Bool-cases (mem_str x xs)) [
  | inl q ↦ ground (arith, mem_str-append x xs ys, q)
  | inr q ↦ ground (arith, mem_str-append x xs ys, q, h)
]

pub In-split : (x : String) (xs ys : List String) → In x (xs ++ ys) → In x xs ⊎ In x ys
In-split x xs ys h = elim (Bool-cases (mem_str x xs)) [
  | inl q ↦ inl q
  | inr q ↦ inr (ground (arith, mem_str-append x xs ys, q, h))
]

has_parent_in_sound :
    (ids : List String) (n : NodeRow)
    → has_parent_in ids n ≡ true
    → (x : String) × (n.parent_id ≡ some x) × In x ids
unfolding has_parent
has_parent_in_sound [] n h = absurd (cc h)
has_parent_in_sound (id ∷ ids) n h = elim (Bool-cases (has_parent id n)) [
  | inl q ↦ (id, is-eq-true n.parent_id (some id) q, rw (eq_refl id) refl)
  | inr q ↦ let (x, e, i) = has_parent_in_sound ids n (ground (arith, q, h)) in (x, e, later x i)
]
  where
    later : (x : String) → In x ids → In x (id ∷ ids)
    later x i = elim (Bool-cases (id == x)) [ inl q ↦ rw q refl | inr q ↦ rw q i ]

has_parent_self : (n : NodeRow) (x : String) → n.parent_id ≡ some x → has_parent x n ≡ true
unfolding has_parent
has_parent_self n x e = subst (λ o. is o (some x) ≡ true) (sym e) (eq_refl x)

has_parent_in_complete :
    (ids : List String) (n : NodeRow) (x : String)
    → n.parent_id ≡ some x
    → In x ids
    → has_parent_in ids n ≡ true
has_parent_in_complete [] n x e i = absurd (cc i)
has_parent_in_complete (id ∷ ids) n x e i = elim (Bool-cases (id == x)) [
  | inl q ↦
      let h =
        subst (λ y. has_parent y n ≡ true) (sym ((eq_iff id x).0 q)) (has_parent_self n x e) in
      ground (arith, h)
  | inr q ↦
      let rest = has_parent_in_complete ids n x e (ground (arith, q, i)) in
      elim (Bool-cases (has_parent id n)) [
        | inl p ↦ ground (arith, p)
        | inr p ↦ ground (arith, p, rest)
      ]
]

pub children_of_sound :
    (ns : List NodeRow) (ids : List String) (y : String)
    → In y (children_of ns ids)
    → (n : NodeRow) × Among n ns × (n.id ≡ y) × ((x : String) × (n.parent_id ≡ some x) × In x ids)
unfolding children_of
children_of_sound [] ids y h = absurd (cc h)
children_of_sound (n ∷ ns) ids y h = elim (Bool-cases (has_parent_in ids n)) [
  | inl q ↦ elim (Bool-cases (n.id == y)) [
    | inl e ↦ (n, inl refl, (eq_iff n.id y).0 e, has_parent_in_sound ids n q)
    | inr e ↦ further (children_of_sound ns ids y (ground (arith, q, e, h)))
  ]
  | inr q ↦ further (children_of_sound ns ids y (ground (arith, q, h)))
]
  where
    further :
        (m : NodeRow) × Among m ns × (m.id ≡ y) × ((x : String) × (m.parent_id ≡ some x) × In x ids)
        → (m : NodeRow) × Among m (n ∷ ns)
          × (m.id ≡ y)
          × ((x : String) × (m.parent_id ≡ some x) × In x ids)
    further (m, a, e, f) = (m, inr a, e, f)

pub children_of_complete :
    (ns : List NodeRow) (ids : List String) (n : NodeRow) (x : String)
    → Among n ns
    → n.parent_id ≡ some x
    → In x ids
    → In n.id (children_of ns ids)
unfolding children_of
children_of_complete [] ids n x a e i = absurd a
children_of_complete (m ∷ ns) ids n x (inl q) e i =
    subst (λ (y : NodeRow). In n.id (children_of (y ∷ ns) ids)) q
      (rw (has_parent_in_complete ids n x e i, eq_refl n.id) refl)
children_of_complete (m ∷ ns) ids n x (inr a) e i =
    let rest = children_of_complete ns ids n x a e i in
    elim (Bool-cases (has_parent_in ids m)) [ inl q ↦ rw q (either rest) | inr q ↦ rw q rest ]
  where
    either : In n.id (children_of ns ids) → In n.id (m.id ∷ children_of ns ids)
    either r = elim (Bool-cases (m.id == n.id)) [ inl q ↦ rw q refl | inr q ↦ rw q r ]
