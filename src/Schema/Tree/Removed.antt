-- ===== src/Schema/Tree/Removed.antt =====
-- flowcore/migrations/0001_initial_schema.sql: the hierarchy when a node and all below it are deleted.
use flowcontrol.Common.{
  ◌≡◌, refl, sym, subst, ap, inl, inr, Bool, true, false, not, String, some, List, [], ◌∷◌, ◌==◌,
  keep_if, mem_str, Among, Among-keep_if, arith, Bool-cases,
}
use flowcontrol.Schema.{NodeRow}
use flowcontrol.Schema.Checks.{node_at}
use flowcontrol.Schema.Cascade.{subtree}
use flowcontrol.Schema.Rows.{Sound-keep_if}
use flowcontrol.Schema.Tree.{Placed, Tree, node_at-id}
use flowcontrol.Schema.Tree.Below.{subtree-closed}

keep_if-passes :
    {A : Type 0} (p : A → Bool) (a : A) (xs : List A) → Among a (keep_if p xs) → p a ≡ true
keep_if-passes p a [] h = absurd h
keep_if-passes p a (x ∷ xs) h = elim (Bool-cases (p x)) [
  | inl q ↦ elim (subst (Among a) {x = keep_if p (x ∷ xs)} {y = x ∷ keep_if p xs} (rw q refl) h) [
    | inl e ↦ subst (λ y. p y ≡ true) (sym e) q
    | inr r ↦ keep_if-passes p a xs r
  ]
  | inr q ↦
      keep_if-passes p a xs
        (subst (Among a) {x = keep_if p (x ∷ xs)} {y = keep_if p xs} (rw q refl) h)
]

node_at-kept :
    (p : NodeRow → Bool) (ns : List NodeRow) (x : String) (n : NodeRow)
    → p n ≡ true
    → node_at ns x ≡ some n
    → node_at (keep_if p ns) x ≡ some n
unfolding node_at
node_at-kept p [] x n k h = h
node_at-kept p (m ∷ ns) x n k h = elim (Bool-cases (m.id == x)) [
  | inl q ↦
      let e : m ≡ n = ground (arith, q, h) in
      rw (subst (λ (y : NodeRow). p y ≡ true) (sym e) k, q) (ap some e)
  | inr q ↦
      let rest = node_at-kept p ns x n k (ground (arith, q, h)) in
      elim (Bool-cases (p m)) [ inl r ↦ rw (r, q) rest | inr r ↦ rw (r) rest ]
]

kept-not_gone : (b : Bool) → not b ≡ true → b ≡ false
kept-not_gone false h = refl
kept-not_gone true h = cc

-- The rows that a deleted node leaves.
abbrev pub rows_left : List NodeRow → String → List NodeRow
rows_left ns id = keep_if (λ (n : NodeRow). not (mem_str n.id (subtree ns id))) ns

pub Tree-removed : (ns : List NodeRow) (id : String) → Tree ns → Tree (rows_left ns id)
Tree-removed ns id t = record {
  sound = Sound-keep_if left ns t.sound;
  placed =
      λ n a. row_left n (Among-keep_if left n ns a) (kept-not_gone _ (keep_if-passes left n ns a));
}
  where
    left : NodeRow → Bool
    left n = not (mem_str n.id (subtree ns id))

    row_left :
        (n : NodeRow)
        → Among n ns
        → mem_str n.id (subtree ns id) ≡ false
        → Placed (rows_left ns id) n
    row_left n a stays = elim (t.placed n a) [
      | inl e ↦ inl e
      | inr h ↦ elim (Bool-cases (mem_str h.id (subtree ns id))) [
        | inl gone ↦ absurd (cc (stays, subtree-closed ns t id h.id n a h.named gone))
        | inr there ↦ inr (record {
          id = h.id;
          row = h.row;
          named = h.named;
          found =
              node_at-kept left ns h.id h.row
                (subst (λ y. not (mem_str y (subtree ns id)) ≡ true)
                  (sym (node_at-id ns h.id h.row h.found)) (rw there refl))
                h.found;
          above = h.above;
        })
      ]
    ]
