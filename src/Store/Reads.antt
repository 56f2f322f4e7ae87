-- ===== src/Store/Reads.antt =====
-- flowcore/src/store.rs: the reads that the operations share.
pub mod Faithful
use flowcontrol.Common.{ℤ, String, Option, none, some, List, ◌==◌, map, option_map, keep_if, find}
use flowcontrol.Error.{DResult, ok, err}
use flowcontrol.Schema.{NodeRow, VerificationRow, DependencyRow, IdempotencyRow, Db}
use flowcontrol.Schema.Checks.{node_at, project_at}
use flowcontrol.Sql.{Row, ◌>>=◌, pure, lift}
use flowcontrol.Message.{Project, Verification, Node}
use flowcontrol.Statement.{Session, reads}
use flowcontrol.Statement.Edges.{verification_at, same_key}
use flowcontrol.Store.Rows.{
  project_cells, row_to_project, node_cells, row_to_node, verification_cells, row_to_verification,
}

abbrev pub option_of {ℓ} : {A : Type ℓ} → DResult A → DResult (Option A)
option_of (ok a) = ok (some a)
option_of (err e) = err e

-- `.map(|r| f(&r)).transpose()`
abbrev pub transpose {ℓ κ} :
    {A : Type ℓ} {B : Type κ} → (A → DResult B) → Option A → DResult (Option B)
transpose f none = ok none
transpose f (some a) = option_of (f a)

-- FROM verifications v JOIN nodes n ON n.id = v.node_id
abbrev pub joined : Option VerificationRow → Option NodeRow → Option Row
joined none n = none
joined (some v) none = none
joined (some v) (some n) = some (verification_cells n v)

unfoldable pub verification_for : String → Session (Option Verification)
unfolding verification_cells row_to_verification verification_at node_at
verification_for id = do
  row ← reads (λ (d : Db). joined (verification_at d.verifications id) (node_at d.nodes id))
  lift (transpose row_to_verification row)

unfoldable pub with_verification : Option Node → Session (Option Node)
unfolding verification_for
with_verification none = pure none
with_verification (some n) = do
  v ← verification_for n.id
  pure (some (record n { verification = v }))

unfoldable pub fetch_node : String → Session (Option Node)
unfolding node_cells row_to_node node_at with_verification
fetch_node id = do
  row ← reads (λ (d : Db). option_map (node_cells d) (node_at d.nodes id))
  node ← lift (transpose row_to_node row)
  with_verification node

abbrev pub owner : Option NodeRow → String
owner none = ""
owner (some n) = n.project_id

-- The owning project of a node, '' if the node is unknown.
unfoldable pub project_of : String → Session String
unfolding node_at
project_of id = reads (λ (d : Db). owner (node_at d.nodes id))

unfoldable pub fetch_project : String → Session (Option Project)
unfolding project_cells row_to_project project_at
fetch_project id = do
  row ← reads (λ (d : Db). option_map project_cells (project_at d.projects id))
  lift (transpose row_to_project row)

-- SELECT blocked_id FROM dependencies WHERE blocker_id = ?1
unfoldable pub blocked_by : Db → String → List String
blocked_by d id =
    map (λ (e : DependencyRow). e.blocked_id)
      (keep_if (λ (e : DependencyRow). e.blocker_id == id) d.dependencies)

unfoldable pub downstream_of : String → Session (List String)
unfolding blocked_by
downstream_of id = reads (λ d. blocked_by d id)

-- An idempotency-ledger hit.
pub record IdemHit : Type 0 where
  pub seq : ℤ
  pub entity_id : Option String

abbrev pub ledger_at : Db → String → String → Option IdempotencyRow
ledger_at d scope key = find (same_key scope key) d.idempotency

unfoldable pub check_idempotency : String → Option String → Session (Option ℤ)
check_idempotency scope none = pure none
check_idempotency scope (some key) =
    reads (λ d. option_map (λ (r : IdempotencyRow). r.seq) (ledger_at d scope key))

unfoldable pub check_idempotency_created : String → Option String → Session (Option IdemHit)
check_idempotency_created scope none = pure none
check_idempotency_created scope (some key) = reads (λ d.
    option_map (λ (r : IdempotencyRow). record { seq = r.seq; entity_id = r.entity_id })
      (ledger_at d scope key))
