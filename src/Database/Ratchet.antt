-- ===== src/Database/Ratchet.antt =====
-- flowcore/src/db/mod.rs: the schema is applied once. What SQLite documents of the two pragmas is a
-- hypothesis: the number user_version is kept by the one and set by the other.
use flowcontrol.Common.{
  ◌≡◌, refl, sym, subst, ap, ◌∙◌, String, ℤ, pos, ltb_ℤ, true, false, Bool-cases, ◌⊎◌, inl, inr,
}
use flowcontrol.Error.{DResult, ok, err, ok-injective}
use flowcontrol.Database.{
  Opening, Texts, pragmas_sql, set_version_sql, at_step, and_then, migrated, brought_up,
}

and_then-eq-ok :
    {A B : Type 0} (m : DResult A) (f : A → DResult B) (b : B)
    → and_then m f ≡ ok b
    → (a : A) × (m ≡ ok a) × (f a ≡ ok b)
and_then-eq-ok (ok a) f b h = (a, refl, h)
and_then-eq-ok (err e) f b h = absurd cc

at_step-eq-ok :
    {A : Type 0} (what : String) (r : String ⊎ A) (a : A) → at_step what r ≡ ok a → r ≡ inr a
at_step-eq-ok what (inl e) a h = absurd cc
at_step-eq-ok what (inr b) a h = ap inr (ok-injective h)

module _ {C : Type 0} (texts : Texts) (engine : Opening C) where
  migrated-version :
      ((c d : C)
        → engine.execute_batch set_version_sql c ≡ inr d
        → engine.user_version d ≡ inr (pos 1))
      → (version : ℤ) (c d : C) → engine.user_version c ≡ inr version
      → migrated texts engine version c ≡ ok d
      → (v : ℤ) × (engine.user_version d ≡ inr v) × (ltb_ℤ v (pos 1) ≡ false)
  unfolding migrated
  migrated-version set version c d h e = elim (Bool-cases (ltb_ℤ version (pos 1))) [
    | inl q ↦
        let (x, f, g) =
          and_then-eq-ok (at_step "apply schema" (engine.execute_batch texts.schema_sql c))
            (λ y. at_step "set user_version" (engine.execute_batch set_version_sql y)) d
            (sym (applied q) ∙ e) in
        (
          pos 1,
          set x d (at_step-eq-ok "set user_version" (engine.execute_batch set_version_sql x) d g),
          refl,
        )
    | inr q ↦ (
      version,
      subst (λ y. engine.user_version y ≡ inr version) (ok-injective (sym (skipped q) ∙ e)) h,
      q,
    )
  ]
    where
      applied :
          ltb_ℤ version (pos 1) ≡ true
          → migrated texts engine version c
            ≡ and_then
                (at_step "apply schema" (engine.execute_batch texts.schema_sql c))
                (λ x. at_step "set user_version" (engine.execute_batch set_version_sql x))
      applied q = rw q refl

      skipped : ltb_ℤ version (pos 1) ≡ false → migrated texts engine version c ≡ ok c
      skipped q = rw q refl

  read_again :
      ((c d : C)
        → engine.execute_batch pragmas_sql c ≡ inr d
        → engine.user_version d ≡ engine.user_version c)
      → (d : C) (v : ℤ) (r : String ⊎ C) → engine.user_version d ≡ inr v
      → ltb_ℤ v (pos 1) ≡ false
      → engine.execute_batch pragmas_sql d ≡ r
      → and_then (at_step "pragmas" r) (λ x.
        and_then
          (at_step "read user_version" (engine.user_version x))
          (λ version. migrated texts engine version x))
        ≡ at_step "pragmas" r
  unfolding migrated
  read_again kept d v (inl e) h q same = refl
  read_again kept d v (inr x) h q same = rw (kept d x same ∙ h, q) refl

-- If the pragmas of a connection keep the number user_version, and the last statement of the migration
-- sets it to 1, then a database that was brought up once is only given the pragmas when it is opened
-- again: the schema is not applied a second time.
pub brought_up-brought_up :
    {C : Type 0} (texts : Texts) (engine : Opening C)
    → ((c d : C)
        → engine.execute_batch pragmas_sql c ≡ inr d
        → engine.user_version d ≡ engine.user_version c)
    → ((c d : C)
        → engine.execute_batch set_version_sql c ≡ inr d
        → engine.user_version d ≡ inr (pos 1))
    → (c d : C) → brought_up texts engine c ≡ ok d
    → brought_up texts engine d ≡ at_step "pragmas" (engine.execute_batch pragmas_sql d)
unfolding brought_up
brought_up-brought_up texts engine kept set c d h =
    let (x, p, rest) =
      and_then-eq-ok (at_step "pragmas" (engine.execute_batch pragmas_sql c))
        (λ y.
          and_then (at_step "read user_version" (engine.user_version y))
            (λ version. migrated texts engine version y))
        d h in
    let (version, read, moved) =
      and_then-eq-ok (at_step "read user_version" (engine.user_version x))
        (λ version. migrated texts engine version x) d rest in
    let (v, now, q) =
      migrated-version texts engine set version x d
        (at_step-eq-ok "read user_version" (engine.user_version x) version read) moved in
    read_again texts engine kept d v (engine.execute_batch pragmas_sql d) now q refl
