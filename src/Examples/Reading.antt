-- ===== src/Examples/Reading.antt =====
-- Reads of the small plan.
use flowcontrol.Common.{pos, ◌++◌, ◌≡◌, none, map}
use flowcontrol.Sql.{done}
use flowcontrol.Statement.{Conn}
use flowcontrol.Store.Reads.Faithful.{event_message}
use flowcontrol.Store.Queries.{poll_changes_locked, events_since}
use flowcontrol.Store.Queries.Paging.{page_of, cursor_of, poll_changes_locked_lem}
use flowcontrol.Common.{◌↔◌}
use flowcontrol.Schema.Cascade.{subtree}
use flowcontrol.Schema.Cycle.Reachable.{In}
use flowcontrol.Common.{arith, take, length, ltb}
use flowcontrol.Store.Queries.{list_events_locked}
use flowcontrol.Store.Queries.Listing.{newest, list_events_locked_lem}
use flowcontrol.Store.Delete.{external_dependents}
use flowcontrol.Store.Delete.Dependents.{BlockedFrom, external_dependents_iff}
use flowcontrol.Store.Progress.{progress_groups}
use flowcontrol.Store.Progress.Balance.{Balanced, progress_groups-Balanced}
use flowcontrol.Examples.Samples.{sample_db, sample_db-IsOrdered}

abbrev here : Conn
here = record { db = sample_db; saved = none }

poll_changes_locked_lem_example :
    (poll_changes_locked "prj" (pos 0) (pos 1) here
      ≡ done
          (record {
            events = map event_message (page_of sample_db "prj" 0 (pos 1));
            seq = pos (cursor_of sample_db "prj" 0 (pos 1));
          })
          here)
    × (events_since sample_db "prj" (pos 0)
        ≡ page_of sample_db "prj" 0 (pos 1)
          ++ events_since sample_db "prj" (pos (cursor_of sample_db "prj" 0 (pos 1))))
poll_changes_locked_lem_example = poll_changes_locked_lem here "prj" 0 (pos 1) sample_db-IsOrdered

external_dependents_iff_example :
    In "t2" (external_dependents sample_db "t1")
    ↔ BlockedFrom (subtree sample_db.nodes "t1") sample_db.dependencies "t2"
external_dependents_iff_example = external_dependents_iff sample_db "t1" "t2"

progress_groups-Balanced_example : Balanced (progress_groups sample_db "prj")
progress_groups-Balanced_example = progress_groups-Balanced sample_db "prj"

list_events_locked_lem_example :
    list_events_locked "prj" "" (pos 0) (pos 1) here
    ≡ done
        (
          map event_message (take 1 (newest sample_db "prj" "" (pos 0))),
          ltb 1 (length (newest sample_db "prj" "" (pos 0))),
        )
        here
list_events_locked_lem_example =
    list_events_locked_lem here "prj" "" (pos 0) 1 (omega arith) (omega arith)
