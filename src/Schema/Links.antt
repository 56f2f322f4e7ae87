-- ===== src/Schema/Links.antt =====
-- The foreign keys on nodes(id) of flowcore/migrations/0001_initial_schema.sql: rows that refer to
-- nodes that are there, while nodes come, change and go.
use flowcontrol.Common.{
  ◌≡◌, refl, ap, ◌∙◌, inl, inr, Bool, true, false, not, String, List, [], ◌∷◌, ◌++◌, ◌==◌, eq_iff,
  keep_if, update_if, is_some, mem_str, arith, if◌then◌else◌, Bool-cases,
}
use flowcontrol.Schema.{NodeRow}
use flowcontrol.Schema.Checks.{node_at}

-- There is a node with the id.
abbrev pub Present : List NodeRow → String → Type 0
Present nodes id = is_some (node_at nodes id) ≡ true

Present-head :
    (n : NodeRow) (ns : List NodeRow) (id : String) → (n.id == id) ≡ true → Present (n ∷ ns) id
unfolding node_at
Present-head n ns id q = rw q refl

Present-tail : (n : NodeRow) (ns : List NodeRow) (id : String) → Present ns id → Present (n ∷ ns) id
unfolding node_at
Present-tail n ns id h = elim (Bool-cases (n.id == id)) [ inl q ↦ rw q refl | inr q ↦ rw q h ]

Present-rest :
    (n : NodeRow) (ns : List NodeRow) (id : String)
    → (n.id == id) ≡ false
    → Present (n ∷ ns) id
    → Present ns id
unfolding node_at
Present-rest n ns id q h = ground (arith, q, h)

pub Present-snoc :
    (ns : List NodeRow) (new : NodeRow) (id : String) → Present ns id → Present (ns ++ new ∷ []) id
Present-snoc [] new id h = Present-tail new [] id h
Present-snoc (n ∷ ns) new id h = elim (Bool-cases (n.id == id)) [
  | inl q ↦ Present-head n (ns ++ new ∷ []) id q
  | inr q ↦ Present-tail n _ id (Present-snoc ns new id (Present-rest n ns id q h))
]

pub Present-update_if :
    (p : NodeRow → Bool) (g : NodeRow → NodeRow) (ns : List NodeRow) (id : String)
    → ((n : NodeRow) → (g n).id ≡ n.id)
    → Present ns id
    → Present (update_if p g ns) id
unfolding node_at
Present-update_if p g [] id same h = h
Present-update_if p g (n ∷ ns) id same h = elim (Bool-cases (n.id == id)) [
  | inl q ↦ Present-head (if p n then g n else n) (update_if p g ns) id (kept (p n) q)
  | inr q ↦
      Present-tail (if p n then g n else n) (update_if p g ns) id
        (Present-update_if p g ns id same (Present-rest n ns id q h))
]
  where
    kept : (b : Bool) → (n.id == id) ≡ true → ((if b then g n else n).id == id) ≡ true
    kept true q = rw (same n) q
    kept false q = q

-- A node that is not among those that go stays.
pub Present-keep_if :
    (gone : List String) (ns : List NodeRow) (id : String)
    → mem_str id gone ≡ false
    → Present ns id
    → Present (keep_if (λ (n : NodeRow). not (mem_str n.id gone)) ns) id
Present-keep_if gone [] id m h = h
Present-keep_if gone (n ∷ ns) id m h = elim (Bool-cases (n.id == id)) [
  | inl q ↦ rw (ap (λ x. mem_str x gone) ((eq_iff n.id id).0 q) ∙ m) (Present-head n _ id q)
  | inr q ↦
      let rest = Present-keep_if gone ns id m (Present-rest n ns id q h) in
      elim (Bool-cases (mem_str n.id gone)) [
        | inl r ↦ rw r rest
        | inr r ↦ rw r (Present-tail n _ id rest)
      ]
]

-- There is a node for each id.
abbrev pub AllPresent : List NodeRow → List String → Type 0
AllPresent nodes [] = Unit
AllPresent nodes (id ∷ ids) = Present nodes id × AllPresent nodes ids

AllPresent-mono :
    (ns ms : List NodeRow) (ids : List String)
    → ((id : String) → Present ns id → Present ms id)
    → AllPresent ns ids
    → AllPresent ms ids
AllPresent-mono ns ms [] f h = tt
AllPresent-mono ns ms (id ∷ ids) f (a, h) = (f id a, AllPresent-mono ns ms ids f h)

-- None of the ids is among those that go.
abbrev pub Spared : List String → List String → Type 0
Spared gone [] = Unit
Spared gone (id ∷ ids) = (mem_str id gone ≡ false) × Spared gone ids

AllPresent-Spared :
    (gone : List String) (ns : List NodeRow) (ids : List String)
    → Spared gone ids
    → AllPresent ns ids
    → AllPresent (keep_if (λ (n : NodeRow). not (mem_str n.id gone)) ns) ids
AllPresent-Spared gone ns [] s h = tt
AllPresent-Spared gone ns (id ∷ ids) (m, s) (a, h) =
    (Present-keep_if gone ns id m a, AllPresent-Spared gone ns ids s h)

-- Each row of a table refers to nodes that are there.
module _ {A : Type 0} (refs : A → List String) where
  abbrev pub Refers : List NodeRow → List A → Type 0
  Refers nodes [] = Unit
  Refers nodes (r ∷ rs) = AllPresent nodes (refs r) × Refers nodes rs

  pub Refers-mono :
      (ns ms : List NodeRow) (rs : List A)
      → ((id : String) → Present ns id → Present ms id)
      → Refers ns rs
      → Refers ms rs
  Refers-mono ns ms [] f h = tt
  Refers-mono ns ms (r ∷ rs) f (a, h) =
      (AllPresent-mono ns ms (refs r) f a, Refers-mono ns ms rs f h)

  pub Refers-keep_if :
      (ns : List NodeRow) (p : A → Bool) (rs : List A) → Refers ns rs → Refers ns (keep_if p rs)
  Refers-keep_if ns p [] h = tt
  Refers-keep_if ns p (r ∷ rs) (a, h) = kept (p r) (Refers-keep_if ns p rs h)
    where
      kept :
          (b : Bool)
          → Refers ns (keep_if p rs)
          → Refers ns (if b then r ∷ keep_if p rs else keep_if p rs)
      kept true k = (a, k)
      kept false k = k

  pub Refers-snoc :
      (ns : List NodeRow) (rs : List A) (r : A)
      → AllPresent ns (refs r)
      → Refers ns rs
      → Refers ns (rs ++ r ∷ [])
  Refers-snoc ns [] r a h = (a, tt)
  Refers-snoc ns (x ∷ rs) r a (b, h) = (b, Refers-snoc ns rs r a h)

  -- The cascade: nodes go, and with them the rows that refer to one of them.
  pub Refers-cascade :
      (gone : List String) (p : A → Bool) (ns : List NodeRow) (rs : List A)
      → ((r : A) → p r ≡ true → Spared gone (refs r))
      → Refers ns rs
      → Refers (keep_if (λ (n : NodeRow). not (mem_str n.id gone)) ns) (keep_if p rs)
  Refers-cascade gone p ns [] f h = tt
  Refers-cascade gone p ns (r ∷ rs) f (a, h) = elim (Bool-cases (p r)) [
    | inl q ↦ rw q (AllPresent-Spared gone ns (refs r) (f r q) a, Refers-cascade gone p ns rs f h)
    | inr q ↦ rw q (Refers-cascade gone p ns rs f h)
  ]
