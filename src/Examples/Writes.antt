-- ===== src/Examples/Writes.antt =====
-- Repeated writes on the small plan.
use flowcontrol.Common.{List, subst, sym, ap, pos, none, some, [], ◌∷◌, ◌≡◌, refl, option_map, ◌∙◌}
use flowcontrol.Schema.{IdempotencyRow, Host}
use flowcontrol.Schema.Checks.{node_at}
use flowcontrol.Sql.{done}
use flowcontrol.Message.{SetStatusRequest}
use flowcontrol.Statement.{Conn}
use flowcontrol.Store.Helpers.{idem_key, empty_mutation}
use flowcontrol.Store.Dispatch.{set_status, mutation, dispatch, Request, run, serve}
use flowcontrol.Store.Replay.{Recorded, dispatch-replays}
use flowcontrol.Store.Reads.Faithful.{fetch_node_lem, node_full}
use flowcontrol.Store.Reads.{fetch_node}
use flowcontrol.Store.Keeps.{after}
use flowcontrol.Store.Retry.{Keyed, run-Retried}
use flowcontrol.Examples.Samples.{sample_host, sample_db, sample_meta, sample_node}

abbrev old_entry : IdempotencyRow
old_entry = record {
  project_id = "prj";
  idempotency_key = "k1";
  seq = pos 3;
  entity_id = none;
  created_at = 2;
}

abbrev recorded_conn : Conn
recorded_conn = record { db = record sample_db { idempotency = old_entry ∷ [] }; saved = none }

abbrev again : SetStatusRequest
again = record { meta = sample_meta; node_id = "t1"; declared_status = pos 3 }

again-Recorded : Recorded recorded_conn old_entry "t1" sample_meta
unfolding node_at idem_key
again-Recorded = record {
  node = sample_node "t1" (some "w") "TASK" "OPEN" none;
  key = "k1";
  found = refl;
  has_key = refl;
  recorded = refl;
}

dispatch-replays_example :
    dispatch sample_host (set_status again) recorded_conn
    ≡ done (mutation (empty_mutation (pos 3))) recorded_conn
dispatch-replays_example =
    dispatch-replays sample_host recorded_conn old_entry (set_status again) again-Recorded

fetch_node_lem_example :
    fetch_node "t1" recorded_conn
    ≡ done
        (option_map (node_full recorded_conn.db) (node_at recorded_conn.db.nodes "t1"))
        recorded_conn
fetch_node_lem_example = fetch_node_lem "t1" recorded_conn

-- The write is sent twice more.
abbrev retries : List (Host × Request)
retries = (sample_host, set_status again) ∷ (sample_host, set_status again) ∷ []

again_serves : serve recorded_conn (sample_host, set_status again) ≡ recorded_conn
unfolding serve
again_serves =
    ap after
      (dispatch-replays sample_host recorded_conn old_entry (set_status again) again-Recorded)

after_retries : run recorded_conn retries ≡ recorded_conn
unfolding run
after_retries = ap (λ c. serve c (sample_host, set_status again)) again_serves ∙ again_serves

again-Keyed : Keyed recorded_conn "prj" "k1" "t1" sample_meta
unfolding node_at idem_key
again-Keyed = record {
  node = sample_node "t1" (some "w") "TASK" "OPEN" none;
  found = refl;
  in_project = refl;
  has_key = refl;
}

run-Retried_example :
    dispatch sample_host (set_status again) (run recorded_conn retries)
    ≡ done (mutation (empty_mutation (pos 3))) (run recorded_conn retries)
run-Retried_example =
    run-Retried retries recorded_conn "prj" "k1" old_entry sample_host (set_status again) refl refl
      (subst (λ (c : Conn). Keyed c "prj" "k1" "t1" sample_meta) (sym after_retries) again-Keyed)
