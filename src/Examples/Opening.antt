-- ===== src/Examples/Opening.antt =====
-- A connection that is the number user_version of its file.
use flowcontrol.Common.{refl, ◌≡◌, ◌==◌, if◌then◌else◌, ℤ, pos, inr, sym}
use flowcontrol.Database.{Texts, Opening, pragmas_sql, at_step, brought_up, migrated}
use flowcontrol.Database.Ratchet.{brought_up-brought_up}

abbrev sample_texts : Texts
sample_texts = record { schema_sql = "CREATE TABLE nodes (id)"; seed_sql = "" }

abbrev sample_engine : Opening ℤ
sample_engine = record {
  open_in_memory = inr (pos 0);
  open_path = λ path. inr (pos 0);
  execute_batch = λ sql c. inr (if sql == "PRAGMA user_version = 1;" then pos 1 else c);
  user_version = λ c. inr c;
}

brought_up-brought_up_example :
    brought_up sample_texts sample_engine (pos 1)
    ≡ at_step "pragmas" (sample_engine.execute_batch pragmas_sql (pos 1))
unfolding brought_up migrated
brought_up-brought_up_example =
    brought_up-brought_up sample_texts sample_engine (λ c d h. sym h) (λ c d h. sym h) (pos 0)
      (pos 1) refl
