-- ===== src/Store/Progress/Total.antt =====
-- flowcore/src/store.rs: progress_for on rows of nodes that meet the CHECKs.
use flowcontrol.Common.{
  ◌≡◌, refl, inl, inr, Bool, true, false, String, Option, none, some, List, [], ◌∷◌, ◌++◌, ◌==◌,
  ◌&&◌, map, keep_if, is_some, arith, Bool-cases, if◌then◌else◌, eq_iff,
}
use Prim.Native.Nat.{Ordering}
use flowcontrol.Error.{DResult, ok}
use flowcontrol.Schema.{NodeRow, Db}
use flowcontrol.Schema.Checks.{node_checks}
use flowcontrol.Schema.View.{effective}
use flowcontrol.Schema.Rows.{Sound}
use flowcontrol.Sql.{cell, get_str, get_i64, get_i32, of_opt_str, done}
use flowcontrol.Message.{Progress}
use flowcontrol.Statement.{Conn}
use flowcontrol.Store.Rows.{collect}
use flowcontrol.Store.Invariant.Rows.{IsSound}
use flowcontrol.Store.Progress.{
  Tally, zero_tally, count_leaf, tally_in, key_order, leaf_rows, all_rows, leaves, group,
  progress_groups, progress_cells, row_to_progress, progress_for,
}

-- Each key of a list of groups, or of joined rows, is a text.
abbrev Keyed {ℓ} : {A : Type ℓ} → List (Option String × A) → Type 0
Keyed [] = Unit
Keyed (g ∷ gs) = (is_some g.0 ≡ true) × Keyed gs

Keyed-append {ℓ} :
    {A : Type ℓ} (xs ys : List (Option String × A)) → Keyed xs → Keyed ys → Keyed (xs ++ ys)
Keyed-append [] ys h k = k
Keyed-append (x ∷ xs) ys (e, h) k = (e, Keyed-append xs ys h k)

leaf_rows-Keyed :
    (d : Db) (t : NodeRow) (ls : List NodeRow)
    → is_some t.parent_id ≡ true
    → Keyed (map (λ (l : NodeRow). (t.parent_id, effective d l)) ls)
leaf_rows-Keyed d t [] h = tt
leaf_rows-Keyed d t (l ∷ ls) h = (h, leaf_rows-Keyed d t ls h)

other_kind : (s : String) → s ≡ "TASK" → (s == "WORK_PACKAGE") ≡ false
other_kind s h = rw h refl

task_parent :
    (t : NodeRow) → node_checks t ≡ true → (t.kind == "TASK") ≡ true → is_some t.parent_id ≡ true
unfolding node_checks
task_parent t c k = elim (Bool-cases (is_some t.parent_id)) [
  | inl e ↦ e
  | inr e ↦ absurd (ground (arith, other_kind t.kind ((eq_iff t.kind "TASK").0 k)))
]

all_rows-Keyed :
    (d : Db) (project : String) (ts : List NodeRow)
    → Sound ts
    → Keyed (all_rows d (keep_if (λ (t : NodeRow). t.kind == "TASK" && t.project_id == project) ts))
unfolding leaf_rows
all_rows-Keyed d project [] h = tt
all_rows-Keyed d project (t ∷ ts) (c, u, h) =
    one (t.kind == "TASK") (t.project_id == project) (task_parent t c)
      (all_rows-Keyed d project ts h)
  where
    rest : List NodeRow
    rest = keep_if (λ (t : NodeRow). t.kind == "TASK" && t.project_id == project) ts

    one :
        (a b : Bool)
        → (a ≡ true → is_some t.parent_id ≡ true)
        → Keyed (all_rows d rest)
        → Keyed (all_rows d (if a && b then t ∷ rest else rest))
    one true true p r =
        Keyed-append (leaf_rows d t) (all_rows d rest)
          (leaf_rows-Keyed d t (leaves d.nodes t) (p refl)) r
    one true false p r = r
    one false b p r = r

tally_in-Keyed :
    (key : Option String) (status : String) (gs : List (Option String × Tally))
    → is_some key ≡ true
    → Keyed gs
    → Keyed (tally_in key status gs)
unfolding tally_in
tally_in-Keyed key status [] e h = (e, tt)
tally_in-Keyed key status ((k, t) ∷ gs) e (f, h) =
    placed (key_order key k) (tally_in-Keyed key status gs e h)
  where
    placed :
        (o : Ordering)
        → Keyed (tally_in key status gs)
        → Keyed (elim o [
          | Ordering.lt ↦ (key, count_leaf status zero_tally) ∷ (k, t) ∷ gs
          | Ordering.eq ↦ (k, count_leaf status t) ∷ gs
          | Ordering.gt ↦ (k, t) ∷ tally_in key status gs
        ])
    placed Ordering.lt r = (e, (f, h))
    placed Ordering.eq r = (f, h)
    placed Ordering.gt r = (f, r)

group-Keyed : (rows : List (Option String × String)) → Keyed rows → Keyed (group rows)
unfolding group
group-Keyed [] h = tt
group-Keyed ((key, status) ∷ rows) (e, h) =
    tally_in-Keyed key status (group rows) e (group-Keyed rows h)

progress_groups-Keyed :
    (d : Db) (project : String) → Sound d.nodes → Keyed (progress_groups d project)
unfolding progress_groups
progress_groups-Keyed d project h = group-Keyed _ (all_rows-Keyed d project d.nodes h)

-- A row under a text can be read.
abbrev Read {ℓ} : {A : Type ℓ} → DResult A → Type ℓ
Read {A = A} r = (a : A) × (r ≡ ok a)

row_to_progress-Read :
    (g : Option String × Tally) → is_some g.0 ≡ true → Read (row_to_progress (progress_cells g))
unfolding row_to_progress progress_cells get_str get_i32 get_i64 cell of_opt_str
row_to_progress-Read (none, t) h = absurd (cc h)
row_to_progress-Read (some id, t) h = (_, refl)

collect-Read :
    (gs : List (Option String × Tally))
    → Keyed gs
    → Read (collect row_to_progress (map progress_cells gs))
unfolding collect
collect-Read [] h = ([], refl)
collect-Read (g ∷ gs) (e, h) =
    let (a, p) = row_to_progress-Read g e in
    let (bs, q) = collect-Read gs h in (a ∷ bs, rw (p, q) refl)

-- On sound rows progress_for succeeds and changes nothing.
pub progress_for-Total :
    (project : String) (c : Conn)
    → IsSound c.db
    → (ps : List Progress) × (progress_for project c ≡ done ps c)
unfolding progress_for
progress_for-Total project c h =
    let (ps, e) =
      collect-Read (progress_groups c.db project) (progress_groups-Keyed c.db project h.rows) in
    (ps, rw e refl)
