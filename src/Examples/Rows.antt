-- ===== src/Examples/Rows.antt =====
-- The stored texts of the small plan, and a row that a trigger refuses.
use flowcontrol.Common.{inl, String, true, Option, none, some, ◌≡◌, refl}
use flowcontrol.Schema.{NodeRow}
use flowcontrol.Schema.Checks.{node_checks, parent_kind_insert, parent_kind, node_at}
use flowcontrol.Schema.Classified.{IsPrecondition, trigger-IsPrecondition}
use flowcontrol.Store.Values.{kind_str, kind_of, declared_str, declared_of, wp_str, wp_state_of}
use flowcontrol.Store.Values.RoundTrip.{stored-written_back}
use flowcontrol.Examples.Samples.{sample_db, sample_node}

abbrev work_package : NodeRow
work_package = sample_node "w" none "WORK_PACKAGE" "DEFERRED" (some "ACTIVE")

package_checks : node_checks work_package ≡ true
unfolding node_checks
package_checks = refl

stored-written_back_example :
    (kind_str (kind_of "WORK_PACKAGE") ≡ "WORK_PACKAGE")
    × (declared_str (declared_of "DEFERRED") ≡ "DEFERRED")
    × ((s : String)
        → Option.some "ACTIVE" ≡ some s
        → wp_str (wp_state_of (some "ACTIVE")) ≡ some "ACTIVE")
stored-written_back_example = stored-written_back work_package package_checks

abbrev stray : NodeRow
stray = sample_node "t3" (some "t1") "TASK" "OPEN" none

stray_refused : parent_kind_insert sample_db stray ≡ some "invalid parent kind for node"
unfolding parent_kind_insert parent_kind node_at
stray_refused = refl

trigger-IsPrecondition_example : IsPrecondition "invalid parent kind for node"
trigger-IsPrecondition_example =
    trigger-IsPrecondition sample_db stray "invalid parent kind for node" (inl stray_refused)
