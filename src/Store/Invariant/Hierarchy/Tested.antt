-- ===== src/Store/Invariant/Hierarchy/Tested.antt =====
-- What the CHECKs and the triggers of flowcore/migrations/0001_initial_schema.sql tested of a row that was
-- put in or moved.
use flowcontrol.Common.{
  ◌≡◌, refl, sym, subst, inl, inr, Bool, true, false, not, ◌&&◌, String, Option, none, some, List,
  [], ◌∷◌, ◌==◌, eq_refl, arith, ap, Option-cases, option_map, ◌∙◌, Among, any,
}
use flowcontrol.Schema.{NodeRow, Db}
use flowcontrol.Schema.Checks.{
  node_at, node_checks, parent_kind, parent_kind_insert, is, kind_at, abort_if, other_project,
  has_parent,
}
use flowcontrol.Schema.Tree.{Placed, is-eq-true, parent_kind-checks}
use flowcontrol.Statement.Syntax.{
  Column, title, description, condition, reference, note, declared_status, position, wp_state,
}
use flowcontrol.Statement.Nodes.{set_column}
use flowcontrol.Statement.Inversion.{Inserted}

pub not_aborted :
    (b : Bool) (message : String) (next : Option String)
    → abort_if b message next ≡ none
    → (b ≡ false) × (next ≡ none)
not_aborted false message next h = (refl, h)
not_aborted true message next h = absurd cc

pub not-false : (b : Bool) → not b ≡ false → b ≡ true
not-false true h = refl
not-false false h = cc

same_id : {a b : String} → some a ≡ some b → a ≡ b
same_id h = cc

-- The parent that a row names, where its kind is the kind above.
found_parent :
    (nodes : List NodeRow) (x k : String)
    → kind_at nodes x ≡ some k
    → (p : NodeRow) × (node_at nodes x ≡ some p) × (p.kind ≡ k)
found_parent nodes x k h = elim (Option-cases (node_at nodes x)) [
  | inl e ↦ absurd (cc (h, ap (option_map (λ (n : NodeRow). n.kind)) e))
  | inr (p, e) ↦ (p, e, kind_of p (cc (h, ap (option_map (λ (n : NodeRow). n.kind)) e)))
]
  where
    kind_of : (p : NodeRow) → some p.kind ≡ some k → p.kind ≡ k
    kind_of p h = cc

-- A parent that the triggers let pass.
pub passed_parent :
    (nodes : List NodeRow) (n : NodeRow) (x : String)
    → node_checks n ≡ true
    → n.parent_id ≡ some x
    → is (kind_at nodes x) (parent_kind n.kind) ≡ true
    → (p : NodeRow) × (node_at nodes x ≡ some p) × (parent_kind n.kind ≡ some p.kind)
passed_parent nodes n x c e i =
    let (k, q) = parent_kind-checks n x c e in
    let (p, f, same) = found_parent nodes x k (is-eq-true _ _ i ∙ q) in
    (p, f, q ∙ ap some (sym same))

is_tested :
    (a b : Option String) (message : String) (next : Option String)
    → abort_if (not (is a b)) message next ≡ none
    → (is a b ≡ true) × (next ≡ none)
is_tested a b message next h = let (q, r) = not_aborted _ message next h in (not-false _ q, r)

-- What the triggers test of a row that names a parent.
insert_tested :
    (nodes : List NodeRow) (kind : Option String) (message x : String) (o : Option String)
    → o ≡ some x
    → elim o [ none ↦ none | some p ↦ abort_if (not (is (kind_at nodes p) kind)) message none ]
      ≡ none
    → is (kind_at nodes x) kind ≡ true
insert_tested nodes kind message x none e h = absurd (cc e)
insert_tested nodes kind message x (some p) e h =
    subst (λ y. is (kind_at nodes y) kind ≡ true) (same_id e) (is_tested _ kind message none h).0

pub Inserted-row : (new : NodeRow) (d d' : Db) → Inserted new d d' → Placed d.nodes new
unfolding parent_kind_insert
Inserted-row new d d' i = elim (Option-cases new.parent_id) [
  | inl e ↦ inl e
  | inr (x, e) ↦
      let test =
        insert_tested d.nodes (parent_kind new.kind) "invalid parent kind for node" x new.parent_id
          e i.parent_kind in
      let (p, f, above) = passed_parent d.nodes new x i.checks e test in
      inr (record { id = x; row = p; named = e; found = f; above = above })
]

tests_passed :
    (a b c : Bool) (x y z : String) (next : Option String)
    → abort_if a x (abort_if b y (abort_if c z next)) ≡ none
    → (a ≡ false) × (b ≡ false) × (next ≡ none)
tests_passed false false false x y z next h = (refl, refl, h)
tests_passed false false true x y z next h = absurd (cc h)
tests_passed false true c x y z next h = absurd (cc h)
tests_passed true b c x y z next h = absurd (cc h)

pub update_tested :
    (d : Db) (new : NodeRow) (x : String) (o : Option String) (children : Option String)
    → o ≡ some x
    → elim o [
      | none ↦ children
      | some p ↦ abort_if (p == new.id) "node cannot be its own parent" (
          abort_if
            (not (is (kind_at d.nodes p) (parent_kind new.kind)))
            "invalid parent kind for node"
            (abort_if
              (other_project (node_at d.nodes p) new.project_id)
              "cross-project move"
              children))
    ]
      ≡ none
    → ((x == new.id) ≡ false) × (is (kind_at d.nodes x) (parent_kind new.kind) ≡ true)
update_tested d new x none children e h = absurd (cc e)
update_tested d new x (some p) children e h =
    let (own, kind, rest) =
      tests_passed (p == new.id) (not (is (kind_at d.nodes p) (parent_kind new.kind)))
        (other_project (node_at d.nodes p) new.project_id) "node cannot be its own parent"
        "invalid parent kind for node" "cross-project move" children h in
    (
      subst (λ y. (y == new.id) ≡ false) (same_id e) own,
      subst (λ y. is (kind_at d.nodes y) (parent_kind new.kind) ≡ true) (same_id e)
          (not-false _ kind),
    )

pub children_tested :
    (d : Db) (new : NodeRow) (o children : Option String)
    → elim o [
      | none ↦ children
      | some p ↦ abort_if (p == new.id) "node cannot be its own parent" (
          abort_if
            (not (is (kind_at d.nodes p) (parent_kind new.kind)))
            "invalid parent kind for node"
            (abort_if
              (other_project (node_at d.nodes p) new.project_id)
              "cross-project move"
              children))
    ]
      ≡ none
    → children ≡ none
children_tested d new none children h = h
children_tested d new (some p) children h =
    let (own, kind, rest) =
      tests_passed (p == new.id) (not (is (kind_at d.nodes p) (parent_kind new.kind)))
        (other_project (node_at d.nodes p) new.project_id) "node cannot be its own parent"
        "invalid parent kind for node" "cross-project move" children h in
    rest

pub any-none :
    {A : Type 0} (p : A → Bool) (l : List A) (a : A) → any p l ≡ false → Among a l → p a ≡ false
any-none p [] a h i = absurd i
any-none p (x ∷ l) a h (inl q) = subst (λ y. p y ≡ false) (sym q) (ground (arith, h))
any-none p (x ∷ l) a h (inr i) = any-none p l a (ground (arith, h)) i

pub set_column_kind : (c : Column) (n : NodeRow) → (set_column c n).kind ≡ n.kind
set_column_kind (title s) n = refl
set_column_kind (description s) n = refl
set_column_kind (condition s) n = refl
set_column_kind (reference s) n = refl
set_column_kind (note s) n = refl
set_column_kind (declared_status s) n = refl
set_column_kind (position p) n = refl
set_column_kind (wp_state w) n = refl

pub set_column_parent_id : (c : Column) (n : NodeRow) → (set_column c n).parent_id ≡ n.parent_id
set_column_parent_id (title s) n = refl
set_column_parent_id (description s) n = refl
set_column_parent_id (condition s) n = refl
set_column_parent_id (reference s) n = refl
set_column_parent_id (note s) n = refl
set_column_parent_id (declared_status s) n = refl
set_column_parent_id (position p) n = refl
set_column_parent_id (wp_state w) n = refl

pub both-false : (a b : Bool) → a ≡ true → (a && b) ≡ false → b ≡ false
both-false true b q h = h
both-false false b q h = absurd cc

pub names_it : {id : String} (c : NodeRow) → c.parent_id ≡ some id → has_parent id c ≡ true
unfolding has_parent
names_it {id} c h = rw h (eq_refl id)
