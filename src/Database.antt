-- ===== src/Database.antt =====
-- flowcore/src/db/mod.rs: opening a database, which is brought to the schema once, and the seed. The
-- connections are rusqlite's, a parameter; an error of it stands for its text.
pub mod Ratchet
use Prim.Native.Char.{code}
use Prim.Native.String.{String}
use flowcontrol.Common.{
  ℕ, ℤ, pos, Option, none, some, ◌⊎◌, inl, inr, [], ◌∷◌, ◌==◌, nat_eq, ltb_ℤ, concat, if◌then◌else◌,
}
use flowcontrol.Error.{DomainError, DResult, ok, err, internal_error}

-- What the module calls of rusqlite.
pub record Opening (C : Type 0) : Type 0 where
  pub open_in_memory : String ⊎ C
  pub open_path : String → String ⊎ C
  pub execute_batch : String → C → String ⊎ C
  pub user_version : C → String ⊎ ℤ

-- The two files of SQL that the build puts into the program.
pub record Texts : Type 0 where
  pub schema_sql : String
  pub seed_sql : String

abbrev pub pragmas_sql : String
pragmas_sql =
    "PRAGMA foreign_keys = ON;\n     PRAGMA journal_mode = WAL;\n     PRAGMA busy_timeout = 5000;"

abbrev pub set_version_sql : String
set_version_sql = "PRAGMA user_version = 1;"

-- `str::strip_prefix`.
unfoldable pub strip_prefix : String → String → Option String
strip_prefix String.[] s = some s
strip_prefix (String.◌∷◌ p ps) String.[] = none
strip_prefix (String.◌∷◌ p ps) (String.◌∷◌ c s) =
    let rest = strip_prefix ps s in if nat_eq (code p) (code c) then rest else none

abbrev pub path_of : String → Option String → String
path_of url none = url
path_of url (some path) = path

-- `.map_err(|e| DomainError::internal(format!("{what}: {e}")))`
abbrev pub at_step {ℓ} : {A : Type ℓ} → String → String ⊎ A → DResult A
at_step what (inl e) = err (internal_error (concat (what ∷ ": " ∷ e ∷ [])))
at_step what (inr a) = ok a

abbrev pub and_then {ℓ κ} : {A : Type ℓ} {B : Type κ} → DResult A → (A → DResult B) → DResult B
and_then (ok a) f = f a
and_then (err e) f = err e

module _ {C : Type 0} (texts : Texts) (engine : Opening C) where
  -- The schema, and then the version, for a database that has neither.
  unfoldable pub migrated : ℤ → C → DResult C
  migrated version c =
      if ltb_ℤ version (pos 1)
      then and_then (at_step "apply schema" (engine.execute_batch texts.schema_sql c))
          (λ d. at_step "set user_version" (engine.execute_batch set_version_sql d))
      else ok c

  -- A connection that is open, brought up to the schema.
  unfoldable pub brought_up : C → DResult C
  unfolding migrated
  brought_up c = and_then (at_step "pragmas" (engine.execute_batch pragmas_sql c)) (λ d.
      and_then (at_step "read user_version" (engine.user_version d))
        (λ version. migrated version d))

  abbrev pub connected : String → String ⊎ C
  connected url =
      if url == ":memory:"
      then engine.open_in_memory
      else engine.open_path (path_of url (strip_prefix "sqlite://" url))

  unfoldable pub open_database : String → DResult C
  unfolding brought_up
  open_database url = and_then (at_step "open db" (connected url)) brought_up

  unfoldable pub seed : C → DResult C
  seed c = at_step "seed" (engine.execute_batch texts.seed_sql c)
