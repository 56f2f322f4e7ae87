-- ===== src/Store/Delete/Dependents.antt =====
-- flowcore/src/store.rs: the dependents that delete_node_locked reports.
use flowcontrol.Common.{
  ◌≡◌, refl, subst, ap, ◌∙◌, inl, inr, ◌↔◌, true, false, not, ◌&&◌, String, List, [], ◌∷◌, ◌==◌,
  eq_iff, mem_str, arith, Bool-cases,
}
use flowcontrol.Schema.{DependencyRow, Db}
use flowcontrol.Schema.Cascade.{subtree}
use flowcontrol.Schema.Cycle.Reachable.{Edge, In}
use flowcontrol.Store.Delete.{distinct, blocked_outside, external_dependents}

-- SELECT DISTINCT keeps what is in the rows and not yet seen.
mem_str-distinct :
    (x : String) (seen l : List String)
    → mem_str x (distinct seen l) ≡ (mem_str x l && not (mem_str x seen))
unfolding distinct
mem_str-distinct x seen [] = refl
mem_str-distinct x seen (s ∷ l) = elim (Bool-cases (s == x)) [
  | inl q ↦
      let e = ap (λ y. mem_str y seen) ((eq_iff s x).0 q) in
      elim (Bool-cases (mem_str s seen)) [
        | inl m ↦ ground (arith, q, e, m, mem_str-distinct x seen l)
        | inr m ↦ ground (arith, q, e, m)
      ]
  | inr q ↦ elim (Bool-cases (mem_str s seen)) [
    | inl m ↦ ground (arith, q, m, mem_str-distinct x seen l)
    | inr m ↦ ground (arith, q, m, mem_str-distinct x (s ∷ seen) l)
  ]
]

-- A node outside the set that a node of the set blocks.
abbrev pub BlockedFrom : List String → List DependencyRow → String → Type 0
BlockedFrom ids es x = (mem_str x ids ≡ false) × ((b : String) × Edge es b x × In b ids)

blocked_outside_sound :
    (ids : List String) (es : List DependencyRow) (x : String)
    → In x (blocked_outside ids es)
    → BlockedFrom ids es x
blocked_outside_sound ids [] x h = absurd (cc h)
blocked_outside_sound ids (e ∷ es) x h =
    elim (Bool-cases (mem_str e.blocker_id ids && not (mem_str e.blocked_id ids))) [
      | inl q ↦ elim (Bool-cases (e.blocked_id == x)) [
        | inl r ↦
            let same = (eq_iff e.blocked_id x).0 r in
            (
              subst (λ y. mem_str y ids ≡ false) same (ground (arith, q)),
              (e.blocker_id, inl (refl, same), ground (arith, q)),
            )
        | inr r ↦ below (blocked_outside_sound ids es x (ground (arith, q, r, h)))
      ]
      | inr q ↦ below (blocked_outside_sound ids es x (ground (arith, q, h)))
    ]
  where
    below : BlockedFrom ids es x → BlockedFrom ids (e ∷ es) x
    below (m, (b, q, i)) = (m, (b, inr q, i))

blocked_outside_complete :
    (ids : List String) (es : List DependencyRow) (x b : String)
    → mem_str x ids ≡ false
    → Edge es b x
    → In b ids
    → In x (blocked_outside ids es)
blocked_outside_complete ids [] x b m q i = absurd q
blocked_outside_complete ids (e ∷ es) x b m (inl q) i = ground (
  arith,
  ap (λ y. mem_str y ids) q.0 ∙ i,
  ap (λ y. mem_str y ids) q.1 ∙ m,
  (eq_iff e.blocked_id x).1 q.1,
)
blocked_outside_complete ids (e ∷ es) x b m (inr q) i =
    ground (arith, blocked_outside_complete ids es x b m q i)

-- The dependents of a node that is to be deleted are exactly the nodes outside its subtree that a
-- node of the subtree blocks.
pub external_dependents_iff :
    (d : Db) (id x : String)
    → In x (external_dependents d id) ↔ BlockedFrom (subtree d.nodes id) d.dependencies x
unfolding external_dependents
external_dependents_iff d id x = (
  λ h. blocked_outside_sound ids d.dependencies x (ground (arith, all, h)),
  λ (m, (b, q, i)). ground (arith, all, blocked_outside_complete ids d.dependencies x b m q i),
)
  where
    ids : List String
    ids = subtree d.nodes id

    all :
        mem_str x (distinct [] (blocked_outside ids d.dependencies))
        ≡ (mem_str x (blocked_outside ids d.dependencies) && true)
    all = mem_str-distinct x [] (blocked_outside ids d.dependencies)
