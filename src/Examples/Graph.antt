-- ===== src/Examples/Graph.antt =====
-- The dependencies of the small plan.
use flowcontrol.Common.{◌⊎◌, true, none, some, ◌≡◌, refl, ◌↔◌, inl}
use flowcontrol.Schema.Cycle.{closes_cycle}
use flowcontrol.Schema.Cycle.Reachable.{Reach, here, step, closes_cycle_iff}
use flowcontrol.Schema.View.{effective}
use flowcontrol.Schema.View.Ready.{Unblocked, effective-ready_iff}
use flowcontrol.Sql.{fail}
use flowcontrol.Store.Edges.{add_dependency_locked}
use flowcontrol.Store.Edges.Cycles.{cycle_error, add_dependency-cycle}
use flowcontrol.Store.Helpers.{idem_key}
use flowcontrol.Message.{AddDependencyRequest}
use flowcontrol.Common.{ap}
use flowcontrol.Sql.{continue, pure}
use flowcontrol.Statement.{Conn}
use flowcontrol.Store.Keeps.{after}
use flowcontrol.Store.Dispatch.{add_dependency, mutation, dispatch}
use flowcontrol.Store.Atomic.{IsRefused}
use flowcontrol.Store.Atomic.Requests.{dispatch-fails}
use flowcontrol.Examples.Samples.{sample_db-IsSound, sample_host, sample_db, sample_node}

closes_cycle_iff_example :
    (closes_cycle sample_db.dependencies "t2" "t1" ≡ true) ↔ Reach sample_db.dependencies "t1" "t2"
closes_cycle_iff_example = closes_cycle_iff sample_db.dependencies "t2" "t1"

effective-ready_iff_example :
    (effective sample_db (sample_node "t2" (some "w") "TASK" "OPEN" none) ≡ "READY")
    ↔ Unblocked sample_db "t2"
effective-ready_iff_example =
    effective-ready_iff sample_db (sample_node "t2" (some "w") "TASK" "OPEN" none) refl

abbrev back_edge : AddDependencyRequest
back_edge = record { meta = none; blocker_id = "t2"; blocked_id = "t1" }

no_key : idem_key back_edge.meta ≡ none
unfolding idem_key
no_key = refl

add_dependency-cycle_example :
    add_dependency_locked sample_host back_edge (record { db = sample_db; saved = none })
    ≡ fail cycle_error (record { db = sample_db; saved = none })
add_dependency-cycle_example =
    add_dependency-cycle sample_host back_edge sample_db no_key (step here (inl (refl, refl)))

abbrev sample_conn : Conn
sample_conn = record { db = sample_db; saved = none }

refused : dispatch sample_host (add_dependency back_edge) sample_conn ≡ fail cycle_error sample_conn
unfolding dispatch
refused =
    ap (λ r. continue r (λ a. pure (mutation a)))
      (add_dependency-cycle sample_host back_edge sample_db no_key (step here (inl (refl, refl))))

refused_there :
    dispatch sample_host (add_dependency back_edge) sample_conn
    ≡ fail cycle_error (after (dispatch sample_host (add_dependency back_edge) sample_conn))
refused_there = rw refused refl

dispatch-fails_example :
    (after (dispatch sample_host (add_dependency back_edge) sample_conn) ≡ sample_conn)
    ⊎ IsRefused sample_host cycle_error sample_conn
        (after (dispatch sample_host (add_dependency back_edge) sample_conn))
dispatch-fails_example =
    dispatch-fails sample_host (add_dependency back_edge) sample_conn
      (after (dispatch sample_host (add_dependency back_edge) sample_conn)) cycle_error tt refl
      sample_db-IsSound refused_there
