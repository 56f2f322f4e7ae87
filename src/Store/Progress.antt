-- ===== src/Store/Progress.antt =====
-- flowcore/src/store.rs: `progress_for`, the counts of the leaves of each work package by effective
-- status. A task with steps is counted by its steps, a task without by itself.
pub mod Total
pub mod Balance
use Prim.Native.String
use Prim.Native.Nat.{Ordering}
use flowcontrol.Common.{
  ℕ, suc, ◌+◌, ◌&&◌, String, Option, none, some, List, [], ◌∷◌, ◌++◌, map, ◌==◌, if◌then◌else◌,
  keep_if,
}
use flowcontrol.Error.{DResult, ok, err}
use flowcontrol.Schema.{NodeRow, Db}
use flowcontrol.Schema.Checks.{has_parent}
use flowcontrol.Schema.View.{effective}
use flowcontrol.Sql.{of_opt_str, Row, get_str, get_i32, ◌>>=◌, lift}
use flowcontrol.Message.{Progress}
use flowcontrol.Statement.{Session, reads}
use flowcontrol.Store.Rows.{collect, stamp}

pub record Tally : Type 0 where
  pub total : ℕ
  pub finished : ℕ
  pub deferred : ℕ
  pub ready : ℕ
  pub blocked : ℕ

abbrev pub zero_tally : Tally
zero_tally = record { total = 0; finished = 0; deferred = 0; ready = 0; blocked = 0 }

abbrev one_if : String → String → ℕ
one_if a b = if a == b then 1 else 0

-- `count(*)` and the sums of the comparisons, for one more leaf.
abbrev pub count_leaf : String → Tally → Tally
count_leaf status t = record {
  total = suc t.total;
  finished = one_if status "DONE" + t.finished;
  deferred = one_if status "DEFERRED" + t.deferred;
  ready = one_if status "READY" + t.ready;
  blocked = one_if status "BLOCKED" + t.blocked;
}

-- GROUP BY t.parent_id ORDER BY t.parent_id: NULL first, then by the texts.
abbrev text_order : String → String → Ordering
text_order = Prim.Native.String.compare

abbrev key_order : Option String → Option String → Ordering
key_order none none = Ordering.eq
key_order none (some b) = Ordering.lt
key_order (some a) none = Ordering.gt
key_order (some a) (some b) = text_order a b

unfoldable pub tally_in :
    Option String → String → List (Option String × Tally) → List (Option String × Tally)
tally_in key status [] = (key, count_leaf status zero_tally) ∷ []
tally_in key status ((k, t) ∷ groups) =
    let rest = tally_in key status groups in
    elim (key_order key k) [
      | Ordering.lt ↦ (key, count_leaf status zero_tally) ∷ (k, t) ∷ groups
      | Ordering.eq ↦ (k, count_leaf status t) ∷ groups
      | Ordering.gt ↦ (k, t) ∷ rest
    ]

-- LEFT JOIN nodes s ON s.parent_id = t.id AND s.kind = 'STEP'; COALESCE(s.id, t.id)
abbrev or_self : NodeRow → List NodeRow → List NodeRow
or_self t [] = t ∷ []
or_self t (s ∷ ss) = s ∷ ss

unfoldable pub leaves : List NodeRow → NodeRow → List NodeRow
unfolding has_parent
leaves nodes t = or_self t (keep_if (λ s. has_parent t.id s && s.kind == "STEP") nodes)

-- The joined rows: the task's parent and the leaf's effective status.
unfoldable pub leaf_rows : Db → NodeRow → List (Option String × String)
unfolding leaves effective
leaf_rows d t = map (λ (l : NodeRow). (t.parent_id, effective d l)) (leaves d.nodes t)

abbrev pub all_rows : Db → List NodeRow → List (Option String × String)
all_rows d [] = []
all_rows d (t ∷ ts) = leaf_rows d t ++ all_rows d ts

unfoldable pub group : List (Option String × String) → List (Option String × Tally)
unfolding tally_in
group [] = []
group ((key, status) ∷ rows) = tally_in key status (group rows)

unfoldable pub progress_groups : Db → String → List (Option String × Tally)
unfolding group leaf_rows
progress_groups d project =
    group
      (all_rows d (keep_if (λ (t : NodeRow). t.kind == "TASK" && t.project_id == project) d.nodes))

unfoldable pub progress_cells : Option String × Tally → Row
unfolding of_opt_str
progress_cells (key, t) = record {
  cells =
      ("wp_id", of_opt_str key)
      ∷ ("total", stamp t.total)
      ∷ ("done", stamp t.finished)
      ∷ ("deferred", stamp t.deferred)
      ∷ ("ready", stamp t.ready)
      ∷ ("blocked", stamp t.blocked)
      ∷ [];
}

abbrev pub then_do {ℓ κ} : {A : Type ℓ} {B : Type κ} → DResult A → (A → DResult B) → DResult B
then_do (ok a) f = f a
then_do (err e) f = err e

unfoldable pub row_to_progress : Row → DResult Progress
unfolding get_str get_i32
row_to_progress r = then_do (get_str r "wp_id") λ id. then_do (get_i32 r "total") λ total.
    then_do (get_i32 r "done") λ finished. then_do (get_i32 r "ready") λ ready.
      then_do (get_i32 r "blocked") λ blocked. then_do (get_i32 r "deferred") λ deferred.
        ok (record {
          work_package_id = id;
          total = total;
          finished = finished;
          ready = ready;
          blocked = blocked;
          deferred = deferred;
        })

unfoldable pub progress_for : String → Session (List Progress)
unfolding progress_groups progress_cells row_to_progress collect
progress_for project = do
  rows ← reads (λ d. map progress_cells (progress_groups d project))
  lift (collect row_to_progress rows)
