-- ===== src/Schema/Tree/Changes.antt =====
-- flowcore/migrations/0001_initial_schema.sql: the hierarchy when a row is put in, changed or moved.
use flowcontrol.Common.{
  ◌≡◌, refl, sym, subst, ap, ◌∙◌, ◌⊎◌, inl, inr, true, false, String, Option, none, some, List, [],
  ◌∷◌, ◌++◌, ◌==◌, eq_iff, update_if, Among, Among-split, arith, Bool-cases,
}
use flowcontrol.Schema.{NodeRow}
use flowcontrol.Schema.Checks.{node_at, parent_kind, child_kind}
use flowcontrol.Schema.Rows.{Sound}
use flowcontrol.Schema.Tree.{Placed, Tree, child_kind-parent_kind, node_at-id}

node_at-append :
    (ns ms : List NodeRow) (x : String) (n : NodeRow)
    → node_at ns x ≡ some n
    → node_at (ns ++ ms) x ≡ some n
unfolding node_at
node_at-append [] ms x n h = cc
node_at-append (m ∷ ns) ms x n h = elim (Bool-cases (m.id == x)) [
  | inl q ↦ ground (arith, q, h)
  | inr q ↦ ground (arith, q, h, node_at-append ns ms x n)
]

Placed-append : (ns ms : List NodeRow) (n : NodeRow) → Placed ns n → Placed (ns ++ ms) n
Placed-append ns ms n (inl e) = inl e
Placed-append ns ms n (inr h) = inr (record {
  id = h.id;
  row = h.row;
  named = h.named;
  found = node_at-append ns ms h.id h.row h.found;
  above = h.above;
})

pub Tree-snoc :
    (ns : List NodeRow) (new : NodeRow)
    → Tree ns
    → Sound (ns ++ new ∷ [])
    → Placed ns new
    → Tree (ns ++ new ∷ [])
Tree-snoc ns new t s p = record {
  sound = s;
  placed = λ n a. elim (Among-split n ns (new ∷ []) a) [
    | inl old ↦ Placed-append ns (new ∷ []) n (t.placed n old)
    | inr (inl q) ↦ subst (Placed (ns ++ new ∷ [])) (sym q) (Placed-append ns (new ∷ []) new p)
    | inr (inr h) ↦ absurd h
  ];
}

-- A row of an updated table: as it was, or the change of a row under the key.
Changed : String → (NodeRow → NodeRow) → NodeRow → NodeRow → Type 0
Changed key g n m = (((n.id == key) ≡ false) × (m ≡ n)) ⊎ (((n.id == key) ≡ true) × (m ≡ g n))

module _ (key : String) (g : NodeRow → NodeRow) where
  unfoldable pub updated : List NodeRow → List NodeRow
  updated ns = update_if (λ (n : NodeRow). n.id == key) g ns

  Among-updated :
      (ns : List NodeRow) (m : NodeRow)
      → Among m (updated ns)
      → (n : NodeRow) × Among n ns × Changed key g n m
  unfolding updated Changed
  Among-updated [] m a = absurd a
  Among-updated (n ∷ ns) m (inl e) = elim (Bool-cases (n.id == key)) [
    | inl q ↦ (n, inl refl, inr (q, e ∙ rw q refl))
    | inr q ↦ (n, inl refl, inl (q, e ∙ rw q refl))
  ]
  Among-updated (n ∷ ns) m (inr a) = let (o, b, c) = Among-updated ns m a in (o, inr b, c)

  node_at-updated :
      ((n : NodeRow) → (g n).id ≡ n.id)
      → (ns : List NodeRow) (x : String) (n : NodeRow) → node_at ns x ≡ some n
      → (m : NodeRow) × (node_at (updated ns) x ≡ some m) × Changed key g n m
  unfolding node_at updated Changed
  node_at-updated same [] x n h = absurd cc
  node_at-updated same (o ∷ ns) x n h = elim (Bool-cases (o.id == x)) [
    | inl q ↦
        let e : o ≡ n = ground (arith, q, h) in
        elim (Bool-cases (o.id == key)) [
          | inl k ↦ (
            g o,
            rw (k, same o, q) refl,
            inr (subst (λ (y : NodeRow). (y.id == key) ≡ true) e k, ap g e),
          )
          | inr k ↦ (o, rw (k, q) refl, inl (subst (λ (y : NodeRow). (y.id == key) ≡ false) e k, e))
        ]
    | inr q ↦
        let (m, f, c) = node_at-updated same ns x n (ground (arith, q, h)) in (m, passed q f, c)
  ]
    where
      passed :
          {m : NodeRow}
          → (o.id == x) ≡ false
          → node_at (updated ns) x ≡ some m
          → node_at (updated (o ∷ ns)) x ≡ some m
      passed q f = elim (Bool-cases (o.id == key)) [
        | inl k ↦ rw (k, same o, q) f
        | inr k ↦ rw (k, q) f
      ]

-- A change that keeps the ids, the parents and the kinds.
module _ (key : String) (g : NodeRow → NodeRow) (ns : List NodeRow) (t : Tree ns) where
  Placed-same :
      ((n : NodeRow) → (g n).id ≡ n.id)
      → ((n : NodeRow) → (g n).kind ≡ n.kind)
      → (n m : NodeRow) → m.parent_id ≡ n.parent_id
      → m.kind ≡ n.kind
      → Placed ns n
      → Placed (updated key g ns) m
  unfolding Changed
  Placed-same same kinds n m p k (inl e) = inl (p ∙ e)
  Placed-same same kinds n m p k (inr h) =
      let (r, found, c) = node_at-updated key g same ns h.id h.row h.found in
      inr (record {
        id = h.id;
        row = r;
        named = p ∙ h.named;
        found = found;
        above = ap parent_kind k ∙ h.above ∙ ap some (sym (kind_of h.row r c));
      })
    where
      kind_of : (a b : NodeRow) → Changed key g a b → b.kind ≡ a.kind
      kind_of a b (inl (q, e)) = ap (λ (y : NodeRow). y.kind) e
      kind_of a b (inr (q, e)) = ap (λ (y : NodeRow). y.kind) e ∙ kinds a

  pub Tree-updated :
      ((n : NodeRow) → (g n).id ≡ n.id)
      → ((n : NodeRow) → (g n).kind ≡ n.kind)
      → ((n : NodeRow) → (g n).parent_id ≡ n.parent_id)
      → Sound (updated key g ns)
      → Tree (updated key g ns)
  unfolding Changed
  Tree-updated same kinds parents s = record {
    sound = s;
    placed = λ m a.
        let (n, b, c) = Among-updated key g ns m a in
        elim c [
          | inl (q, e) ↦
              Placed-same same kinds n m (ap (λ (y : NodeRow). y.parent_id) e)
                (ap (λ (y : NodeRow). y.kind) e) (t.placed n b)
          | inr (q, e) ↦
              Placed-same same kinds n m (ap (λ (y : NodeRow). y.parent_id) e ∙ parents n)
                (ap (λ (y : NodeRow). y.kind) e ∙ kinds n) (t.placed n b)
        ];
  }

-- What a move has to meet: the new parent is another row and of the kind above, and the children are of
-- the kind below.
pub record Fits (ns : List NodeRow) (key : String) (parent : Option String) (kind : String)
    : Type 0 where
  pub under :
      (parent ≡ none)
      ⊎ ((x : String) × (p : NodeRow) × (parent ≡ some x)
          × ((x == key) ≡ false)
          × (node_at ns x ≡ some p)
          × (parent_kind kind ≡ some p.kind))
  pub over : (c : NodeRow) → Among c ns → c.parent_id ≡ some key → child_kind kind ≡ some c.kind

module _ (key : String) (g : NodeRow → NodeRow) (parent : Option String) (kind : String)
    (ns : List NodeRow) (t : Tree ns) (f : Fits ns key parent kind) where
  moved_row :
      ((n : NodeRow) → (g n).id ≡ n.id)
      → (m : NodeRow) → m.parent_id ≡ parent
      → m.kind ≡ kind
      → Placed (updated key g ns) m
  unfolding Changed
  moved_row same m pe ke = elim f.under [
    | inl e ↦ inl (pe ∙ e)
    | inr (x, p, e, other, found, above) ↦
        let (r, found', c) = node_at-updated key g same ns x p found in
        inr (record {
          id = x;
          row = r;
          named = pe ∙ e;
          found = found';
          above = ap parent_kind ke ∙ above ∙ ap some (sym (kept x p r other found c));
        })
  ]
    where
      kept :
          (x : String) (p r : NodeRow)
          → (x == key) ≡ false
          → node_at ns x ≡ some p
          → Changed key g p r
          → r.kind ≡ p.kind
      kept x p r other found (inl (q, e)) = ap (λ (y : NodeRow). y.kind) e
      kept x p r other found (inr (q, e)) =
          absurd (cc (other, subst (λ y. (y == key) ≡ true) (node_at-id ns x p found) q))

  other_row :
      ((n : NodeRow) → (g n).id ≡ n.id)
      → ((n : NodeRow) → (g n).kind ≡ kind)
      → (n : NodeRow) → Among n ns
      → Placed ns n
      → Placed (updated key g ns) n
  unfolding Changed
  other_row same kinds n a (inl e) = inl e
  other_row same kinds n a (inr h) =
      let (r, found, c) = node_at-updated key g same ns h.id h.row h.found in
      inr (record { id = h.id; row = r; named = h.named; found = found; above = above_of r c })
    where
      above_of : (r : NodeRow) → Changed key g h.row r → parent_kind n.kind ≡ some r.kind
      above_of r (inl (q, e)) = h.above ∙ ap (λ (y : NodeRow). some y.kind) (sym e)
      above_of r (inr (q, e)) =
          let is_key : h.id ≡ key =
            sym (node_at-id ns h.id h.row h.found) ∙ (eq_iff h.row.id key).0 q in
          child_kind-parent_kind kind n.kind (f.over n a (h.named ∙ ap some is_key))
          ∙ ap some (sym (ap (λ (y : NodeRow). y.kind) e ∙ kinds h.row))

  pub Tree-moved :
      ((n : NodeRow) → (g n).id ≡ n.id)
      → ((n : NodeRow) → (g n).kind ≡ kind)
      → ((n : NodeRow) → (g n).parent_id ≡ parent)
      → Sound (updated key g ns)
      → Tree (updated key g ns)
  unfolding Changed
  Tree-moved same kinds parents s = record {
    sound = s;
    placed = λ m a.
        let (n, b, c) = Among-updated key g ns m a in
        elim c [
          | inl (q, e) ↦
              subst (Placed (updated key g ns)) (sym e) (other_row same kinds n b (t.placed n b))
          | inr (q, e) ↦
              moved_row same m (ap (λ (y : NodeRow). y.parent_id) e ∙ parents n)
                (ap (λ (y : NodeRow). y.kind) e ∙ kinds n)
        ];
  }
