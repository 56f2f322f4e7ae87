-- ===== src/Store/History.antt =====
-- Histories of requests to the dispatch of flowcore/src/store.rs, each request served on a session of
-- the one connection.
use flowcontrol.Common.{List}
use flowcontrol.Schema.{Host}
use flowcontrol.Statement.{Conn}
use flowcontrol.Store.Keeps.{On}
use flowcontrol.Store.Dispatch.{Request, run}
use flowcontrol.Store.Keeps.Dispatch.{run-Preserves}
use flowcontrol.Store.Invariant.Acyclic.{IsAcyclic, Acyclic-Preserves}
use flowcontrol.Store.Invariant.Rows.{IsSound, Sound-Preserves}
use flowcontrol.Store.Invariant.Hierarchy.{IsHierarchy, Hierarchy-Preserves}
use flowcontrol.Store.Invariant.Links.{IsLinked, Linked-Preserves}
use flowcontrol.Store.Invariant.Log.{IsOrdered, Ordered-Preserves}

-- If the dependencies are free of cycles, in a connection's database and in the one that a rollback
-- would bring back, they are so after any history of requests on it, whatever each request was,
-- whatever the host supplied, and whichever of the requests failed or had its COMMIT refused.
pub run-IsAcyclic :
    (rs : List (Host × Request)) (c : Conn) → On IsAcyclic c → On IsAcyclic (run c rs)
run-IsAcyclic = run-Preserves Acyclic-Preserves

-- If the events stand in the order of strictly increasing numbers, none above the last number given
-- out, in a connection's database and in the one that a rollback would bring back, they stand so
-- after any history of requests on it.
pub run-IsOrdered :
    (rs : List (Host × Request)) (c : Conn) → On IsOrdered c → On IsOrdered (run c rs)
run-IsOrdered = run-Preserves Ordered-Preserves

-- If each row of nodes meets the CHECKs of its table and no two have the same id, in a connection's
-- database and in the one that a rollback would bring back, so it is after any history of requests
-- on it.
pub run-IsSound : (rs : List (Host × Request)) (c : Conn) → On IsSound c → On IsSound (run c rs)
run-IsSound = run-Preserves Sound-Preserves

-- If both ends of each dependency are nodes, and the node of each event that names one is there, in
-- a connection's database and in the one that a rollback would bring back, so it is after any
-- history of requests on it.
pub run-IsLinked : (rs : List (Host × Request)) (c : Conn) → On IsLinked c → On IsLinked (run c rs)
run-IsLinked = run-Preserves Linked-Preserves

-- If each row of nodes meets the CHECKs, no two have the same id, and each parent that a row names
-- is there and of the kind above the row's (a task stands in a work package, a step in a task), in a
-- connection's database and in the one that a rollback would bring back, so it is after any history
-- of requests on it: no update, move, deletion or undo leaves a row astray.
pub run-IsHierarchy :
    (rs : List (Host × Request)) (c : Conn) → On IsHierarchy c → On IsHierarchy (run c rs)
run-IsHierarchy = run-Preserves Hierarchy-Preserves
