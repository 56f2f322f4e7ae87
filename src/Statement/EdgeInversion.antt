-- ===== src/Statement/EdgeInversion.antt =====
-- What a statement of flowcore/src/store.rs on `dependencies` or `verifications` that went through has
-- done: nothing, or one change whose guards had passed.
use flowcontrol.Common.{
  ◌≡◌, ◌⊎◌, inl, inr, true, false, ◌&&◌, ◌||◌, String, some, List, [], ◌∷◌, ◌++◌, arith, any, ◌==◌,
  Bool-cases,
}
use flowcontrol.Error.{ok}
use flowcontrol.Schema.{VerificationRow, DependencyRow, Db, Host}
use flowcontrol.Schema.Checks.{node_reference}
use flowcontrol.Schema.Cycle.{closes_cycle}
use flowcontrol.Statement.Edges.{insert_edge, same_edge, upsert_verification}

abbrev pub new_edge : Host → String → String → DependencyRow
new_edge host a b = record { blocker_id = a; blocked_id = b; created_at = host.now }

-- An edge that was put in: the trigger and the foreign keys had let it pass.
pub record Linked (host : Host) (a b : String) (d d' : Db) : Type 0 where
  pub result : d' ≡ record d { dependencies = d.dependencies ++ new_edge host a b ∷ [] }
  pub no_cycle : closes_cycle d.dependencies a b ≡ false
  pub blocker : node_reference d (some a) ≡ true
  pub blocked : node_reference d (some b) ≡ true

pub insert_edge-eq-ok :
    (host : Host) (a b : String) (d d' : Db)
    → insert_edge host a b d ≡ ok d'
    → (d' ≡ d) ⊎ Linked host a b d d'
unfolding insert_edge
insert_edge-eq-ok host a b d d' h = elim (Bool-cases (closes_cycle d.dependencies a b)) [
  | inl c ↦ absurd (ground arith)
  | inr c ↦ elim (Bool-cases (a == b || any (same_edge a b) d.dependencies)) [
    | inl old ↦ inl (ground arith)
    | inr new ↦ elim (Bool-cases (node_reference d (some a) && node_reference d (some b))) [
      | inl r ↦ inr (record {
        result = ground arith;
        no_cycle = c;
        blocker = ground arith;
        blocked = ground arith;
      })
      | inr r ↦ absurd (ground arith)
    ]
  ]
]

-- The verifications alone may change.
pub upsert-others :
    (host : Host) (id : String) (f : VerificationRow → VerificationRow) (d d' : Db)
    → upsert_verification host id f d ≡ ok d'
    → (vs : List VerificationRow) × (d' ≡ record d { verifications = vs })
unfolding upsert_verification
upsert-others host id f d d' h = (d'.verifications, ground arith)
