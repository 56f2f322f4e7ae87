-- ===== src/Statement/Edges.antt =====
-- The statements on the tables `dependencies`, `verifications` and `idempotency`.
use flowcontrol.Common.{
  ℕ, ℤ, Bool, not, ◌&&◌, ◌||◌, String, Option, none, some, List, [], ◌∷◌, ◌++◌, ◌==◌, if◌then◌else◌,
  find, any, keep_if, update_if,
}
use flowcontrol.Error.{DResult, ok, err, from_db_message}
use flowcontrol.Schema.{
  VerificationRow, DependencyRow, IdempotencyRow, Db, Host, check, foreign_key,
}
use flowcontrol.Schema.Checks.{node_reference, verification_checks}
use flowcontrol.Schema.Cycle.{closes_cycle}
use flowcontrol.Statement.Nodes.{violated}

abbrev pub same_edge : String → String → DependencyRow → Bool
same_edge a b e = e.blocker_id == a && e.blocked_id == b

unfoldable pub insert_edge : Host → String → String → Db → DResult Db
unfolding closes_cycle node_reference
insert_edge host a b d =
    if closes_cycle d.dependencies a b
    then err (from_db_message "dependency would create a cycle")
    else if a == b || any (same_edge a b) d.dependencies
    then ok d
    else if not (node_reference d (some a) && node_reference d (some b))
    then err (violated host foreign_key "dependencies")
    else ok (record d {
      dependencies =
          d.dependencies ++ record { blocker_id = a; blocked_id = b; created_at = host.now } ∷ [];
    })

unfoldable pub delete_edge : String → String → Db → Db
delete_edge a b d = record d { dependencies = keep_if (λ e. not (same_edge a b e)) d.dependencies }

abbrev pub of_node : String → VerificationRow → Bool
of_node id v = v.node_id == id

unfoldable pub verification_at : List VerificationRow → String → Option VerificationRow
verification_at vs id = find (of_node id) vs

abbrev pub blank_verification : String → VerificationRow
blank_verification id = record {
  node_id = id;
  agent_result = none;
  agent_name = none;
  agent_at = none;
  agent_node_rev = none;
  agent_detail = "";
  human_verdict = none;
  human_at = none;
}

-- INSERT … ON CONFLICT(node_id) DO UPDATE SET, where `f` sets the columns of either.
unfoldable pub upsert_verification :
    Host → String → (VerificationRow → VerificationRow) → Db → DResult Db
unfolding verification_checks verification_at node_reference
upsert_verification host id f d =
    if not (verification_checks (f (blank_verification id)))
    then err (violated host check "verifications")
    else elim (verification_at d.verifications id) [
      | some v ↦
          if verification_checks (f v)
          then ok (record d { verifications = update_if (of_node id) f d.verifications })
          else err (violated host check "verifications")
      | none ↦
          if node_reference d (some id)
          then ok (record d { verifications = d.verifications ++ f (blank_verification id) ∷ [] })
          else err (violated host foreign_key "verifications")
    ]

abbrev pub set_agent :
    Host → Option ℕ → String → String → String → VerificationRow → VerificationRow
set_agent host rev result name detail v = record v {
  agent_result = some result;
  agent_name = some name;
  agent_at = some host.now;
  agent_node_rev = rev;
  agent_detail = detail;
}

abbrev pub set_human : Option String → Option ℕ → VerificationRow → VerificationRow
set_human verdict at v = record v { human_verdict = verdict; human_at = at }

abbrev pub same_key : String → String → IdempotencyRow → Bool
same_key scope key r = r.project_id == scope && r.idempotency_key == key

unfoldable pub insert_key : Host → String → String → ℤ → Option String → Db → Db
insert_key host scope key seq entity d =
    if any (same_key scope key) d.idempotency then d else record d {
      idempotency =
          d.idempotency
          ++ record {
            project_id = scope;
            idempotency_key = key;
            seq = seq;
            entity_id = entity;
            created_at = host.now;
          }
            ∷ [];
    }
