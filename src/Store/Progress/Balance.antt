-- ===== src/Store/Progress/Balance.antt =====
-- flowcore/src/store.rs: the sums of the counts that progress_for gives.
use Prim.Native.Nat.{Ordering}
use flowcontrol.Common.{
  ◌&&◌, ◌+◌, ◌≡◌, refl, ◌⊎◌, inl, inr, Bool, true, false, String, Option, List, [], ◌∷◌, ◌++◌, ◌==◌,
  map, keep_if, if◌then◌else◌, arith,
}
use flowcontrol.Schema.{NodeRow, Db}
use flowcontrol.Schema.View.{has_open_blocker, effective}
use flowcontrol.Store.Progress.{
  Tally, zero_tally, count_leaf, key_order, tally_in, leaves, leaf_rows, all_rows, group,
  progress_groups,
}

abbrev pub Balanced : List (Option String × Tally) → Type 0
Balanced [] = Unit
Balanced ((k, t) ∷ gs) = (t.total ≡ t.finished + t.deferred + t.ready + t.blocked) × Balanced gs

-- Each row has one of the four statuses.
abbrev Is : String → Type 0
Is s = (s ≡ "DONE") ⊎ (s ≡ "DEFERRED") ⊎ (s ≡ "READY") ⊎ (s ≡ "BLOCKED")

abbrev Rated : List (Option String × String) → Type 0
Rated [] = Unit
Rated ((k, s) ∷ rows) = Is s × Rated rows

effective_rated : (d : Db) (n : NodeRow) → Is (effective d n)
unfolding effective
effective_rated d n =
    rated (n.declared_status == "DONE") (n.declared_status == "DEFERRED") (has_open_blocker d n.id)
  where
    rated :
        (a b c : Bool)
        → Is (if a then "DONE" else if b then "DEFERRED" else if c then "BLOCKED" else "READY")
    rated true b c = inl refl
    rated false true c = inr (inl refl)
    rated false false true = inr (inr (inr refl))
    rated false false false = inr (inr (inl refl))

count_leaf-total :
    (s : String) (t : Tally)
    → Is s
    → t.total ≡ t.finished + t.deferred + t.ready + t.blocked
    → (count_leaf s t).total
      ≡ (count_leaf s t).finished
        + (count_leaf s t).deferred
        + (count_leaf s t).ready
        + (count_leaf s t).blocked
count_leaf-total s t (inl e) h = rw e (omega (arith, h))
count_leaf-total s t (inr (inl e)) h = rw e (omega (arith, h))
count_leaf-total s t (inr (inr (inl e))) h = rw e (omega (arith, h))
count_leaf-total s t (inr (inr (inr e))) h = rw e (omega (arith, h))

tally_in-Balanced :
    (key : Option String) (s : String) (gs : List (Option String × Tally))
    → Is s
    → Balanced gs
    → Balanced (tally_in key s gs)
unfolding tally_in
tally_in-Balanced key s [] i h = (count_leaf-total s zero_tally i refl, tt)
tally_in-Balanced key s ((k, t) ∷ gs) i (e, h) =
    placed (key_order key k) (tally_in-Balanced key s gs i h)
  where
    placed :
        (o : Ordering)
        → Balanced (tally_in key s gs)
        → Balanced (elim o [
          | Ordering.lt ↦ (key, count_leaf s zero_tally) ∷ (k, t) ∷ gs
          | Ordering.eq ↦ (k, count_leaf s t) ∷ gs
          | Ordering.gt ↦ (k, t) ∷ tally_in key s gs
        ])
    placed Ordering.lt r = (count_leaf-total s zero_tally i refl, (e, h))
    placed Ordering.eq r = (count_leaf-total s t i e, h)
    placed Ordering.gt r = (e, r)

group-Balanced : (rows : List (Option String × String)) → Rated rows → Balanced (group rows)
unfolding group
group-Balanced [] h = tt
group-Balanced ((k, s) ∷ rows) (i, h) = tally_in-Balanced k s (group rows) i (group-Balanced rows h)

Rated-append : (xs ys : List (Option String × String)) → Rated xs → Rated ys → Rated (xs ++ ys)
Rated-append [] ys h k = k
Rated-append (x ∷ xs) ys (i, h) k = (i, Rated-append xs ys h k)

leaf-Rated :
    (d : Db) (key : Option String) (ls : List NodeRow)
    → Rated (map (λ (l : NodeRow). (key, effective d l)) ls)
leaf-Rated d key [] = tt
leaf-Rated d key (l ∷ ls) = (effective_rated d l, leaf-Rated d key ls)

all_rows-Rated : (d : Db) (ts : List NodeRow) → Rated (all_rows d ts)
unfolding leaf_rows
all_rows-Rated d [] = tt
all_rows-Rated d (t ∷ ts) =
    Rated-append (leaf_rows d t) (all_rows d ts) (leaf-Rated d t.parent_id (leaves d.nodes t))
      (all_rows-Rated d ts)

-- In each group of progress_for the total is the sum of the done, the deferred, the ready and the
-- blocked leaves.
pub progress_groups-Balanced : (d : Db) (project : String) → Balanced (progress_groups d project)
unfolding progress_groups
progress_groups-Balanced d project =
    let tasks = keep_if (λ (t : NodeRow). t.kind == "TASK" && t.project_id == project) d.nodes in
    group-Balanced (all_rows d tasks) (all_rows-Rated d tasks)
