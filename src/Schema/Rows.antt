-- ===== src/Schema/Rows.antt =====
-- The table `nodes` of flowcore/migrations/0001_initial_schema.sql: rows that meet the CHECKs, under
-- ids that are different from each other.
use flowcontrol.Common.{
  ◌≡◌, refl, sym, inl, inr, Bool, true, false, String, Option, none, some, List, [], ◌∷◌, ◌++◌,
  ◌==◌, eq_iff, eq_refl, keep_if, update_if, find, subst, arith, if◌then◌else◌, Bool-cases,
}
use flowcontrol.Schema.{NodeRow}
use flowcontrol.Schema.Checks.{node_at, node_checks}

abbrev pub Sound : List NodeRow → Type 0
Sound [] = Unit
Sound (n ∷ ns) = (node_checks n ≡ true) × (node_at ns n.id ≡ none) × Sound ns

eq_sym : (a b : String) → (a == b) ≡ false → (b == a) ≡ false
eq_sym a b h = elim (Bool-cases (b == a)) [
  | inl e ↦ absurd (cc (h, eq_refl a, (eq_iff b a).0 e))
  | inr e ↦ e
]

node_at-snoc :
    (ns : List NodeRow) (new : NodeRow) (id : String)
    → node_at ns id ≡ none
    → (new.id == id) ≡ false
    → node_at (ns ++ new ∷ []) id ≡ none
unfolding node_at
node_at-snoc [] new id h e = rw e refl
node_at-snoc (n ∷ ns) new id h e = elim (Bool-cases (n.id == id)) [
  | inl q ↦ absurd (ground arith)
  | inr q ↦ ground (arith, node_at-snoc ns new id (ground arith) e)
]

node_at-tail :
    (n : NodeRow) (ns : List NodeRow) (id : String)
    → node_at (n ∷ ns) id ≡ none
    → ((n.id == id) ≡ false) × (node_at ns id ≡ none)
unfolding node_at
node_at-tail n ns id h = elim (Bool-cases (n.id == id)) [
  | inl q ↦ absurd (ground arith)
  | inr q ↦ (q, ground arith)
]

pub Sound-snoc :
    (ns : List NodeRow) (new : NodeRow)
    → node_checks new ≡ true
    → node_at ns new.id ≡ none
    → Sound ns
    → Sound (ns ++ new ∷ [])
unfolding node_at
Sound-snoc [] new c u h = (c, refl, tt)
Sound-snoc (n ∷ ns) new c u (k, v, h) =
    let (other, rest) = node_at-tail n ns new.id u in
    (k, node_at-snoc ns new n.id v (eq_sym n.id new.id other), Sound-snoc ns new c rest h)

node_at-keep_if :
    (p : NodeRow → Bool) (ns : List NodeRow) (id : String)
    → node_at ns id ≡ none
    → node_at (keep_if p ns) id ≡ none
unfolding node_at
node_at-keep_if p [] id h = h
node_at-keep_if p (n ∷ ns) id h =
    let (other, tail) = node_at-tail n ns id h in
    let rest = node_at-keep_if p ns id tail in
    elim (Bool-cases (p n)) [ inl q ↦ ground (arith, rest) | inr q ↦ ground (arith, rest) ]

pub Sound-keep_if : (p : NodeRow → Bool) (ns : List NodeRow) → Sound ns → Sound (keep_if p ns)
Sound-keep_if p [] h = h
Sound-keep_if p (n ∷ ns) (k, v, h) = kept (p n) (Sound-keep_if p ns h)
  where
    kept : (b : Bool) → Sound (keep_if p ns) → Sound (if b then n ∷ keep_if p ns else keep_if p ns)
    kept true r = (k, node_at-keep_if p ns n.id v, r)
    kept false r = r

abbrev of_id : String → NodeRow → Bool
of_id id n = n.id == id

-- A change that keeps the ids finds no id that was not there.
node_at-update_if :
    (g : NodeRow → NodeRow) (key : String) (ns : List NodeRow) (id : String)
    → ((n : NodeRow) → (g n).id ≡ n.id)
    → node_at ns id ≡ none
    → node_at (update_if (of_id key) g ns) id ≡ none
unfolding node_at
node_at-update_if g key [] id same h = h
node_at-update_if g key (n ∷ ns) id same h =
    let (other, tail) = node_at-tail n ns id h in
    let rest = node_at-update_if g key ns id same tail in
    elim (Bool-cases (n.id == key)) [
      | inl q ↦ rw (q, same n, other) rest
      | inr q ↦ rw (q, other) rest
    ]

-- No row has the id: nothing changes.
update_if-absent :
    (g : NodeRow → NodeRow) (ns : List NodeRow) (id : String)
    → node_at ns id ≡ none
    → update_if (of_id id) g ns ≡ ns
unfolding node_at
update_if-absent g [] id h = refl
update_if-absent g (n ∷ ns) id h =
    let (other, tail) = node_at-tail n ns id h in rw (other, update_if-absent g ns id tail) refl

first_row :
    (n old : NodeRow) (ns : List NodeRow) (id : String)
    → (n.id == id) ≡ true
    → node_at (n ∷ ns) id ≡ some old
    → n ≡ old
unfolding node_at
first_row n old ns id q e = some-injective (cc (head_row, e))
  where
    some-injective : Option.some n ≡ some old → n ≡ old
    some-injective h = cc h

    head_row : find (of_id id) (n ∷ ns) ≡ some n
    head_row = rw q refl

pub Sound-update_if :
    (g : NodeRow → NodeRow) (id : String) (old : NodeRow) (ns : List NodeRow)
    → ((n : NodeRow) → (g n).id ≡ n.id)
    → node_at ns id ≡ some old
    → node_checks (g old) ≡ true
    → Sound ns
    → Sound (update_if (of_id id) g ns)
unfolding node_at
Sound-update_if g id old [] same e c h = h
Sound-update_if g id old (n ∷ ns) same e c (k, v, h) = elim (Bool-cases (n.id == id)) [
  | inl q ↦
      rw (q, update_if-absent g ns id (subst (λ x. node_at ns x ≡ none) ((eq_iff n.id id).0 q) v))
        ((
          subst (λ x. node_checks (g x) ≡ true) (sym (first_row n old ns id q e)) c,
          subst (λ x. node_at ns x ≡ none) (sym (same n)) v,
          h,
        ))
  | inr q ↦ rw q (
      (
        k,
        node_at-update_if g id ns n.id same v,
        Sound-update_if g id old ns same (ground arith) c h,
      ))
]
