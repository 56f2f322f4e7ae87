-- ===== src/Store/Values.antt =====
-- flowcore/src/store.rs: the conversions between the numbers of the messages' enumerations and the
-- texts of the tables, in both directions.
pub mod RoundTrip
use flowcontrol.Common.{ℤ, pos, String, Option, none, some, ◌==◌, if◌then◌else◌, eqb_ℤ}
use flowcontrol.Error.{DResult, ok, err, from_db_message}

-- The numbers of `NodeKind`, `DeclaredStatus`, `EffectiveStatus`, `WorkPackageState`,
-- `AgentResult`, `HumanVerdict` and `EventKind`, by their order in the message file.
unfoldable pub kind_str : ℤ → String
kind_str k = if eqb_ℤ k (pos 1) then "WORK_PACKAGE" else if eqb_ℤ k (pos 2) then "TASK" else "STEP"

unfoldable pub declared_str : ℤ → String
declared_str d = if eqb_ℤ d (pos 1) then "OPEN" else if eqb_ℤ d (pos 2) then "DEFERRED" else "DONE"

unfoldable pub wp_str : ℤ → Option String
wp_str w =
    if eqb_ℤ w (pos 1)
    then some "PLANNED"
    else if eqb_ℤ w (pos 2)
    then some "ACTIVE"
    else if eqb_ℤ w (pos 3)
    then some "DONE"
    else if eqb_ℤ w (pos 4)
    then some "ARCHIVED"
    else none

unfoldable pub wp_state_str : Option String → Option String
wp_state_str none = none
wp_state_str (some s) =
    if s == "PLANNED"
    then some "PLANNED"
    else if s == "ACTIVE"
    then some "ACTIVE"
    else if s == "DONE"
    then some "DONE"
    else if s == "ARCHIVED"
    then some "ARCHIVED"
    else none

unfoldable pub declared_str_from : String → String
declared_str_from s = if s == "DEFERRED" then "DEFERRED" else if s == "DONE" then "DONE" else "OPEN"

unfoldable pub effective_status : String → ℤ
effective_status s =
    if s == "READY"
    then pos 1
    else if s == "BLOCKED"
    then pos 2
    else if s == "DEFERRED"
    then pos 3
    else if s == "DONE"
    then pos 4
    else pos 0

-- The matches of `row_to_node`.
unfoldable pub kind_of : String → ℤ
kind_of s = if s == "WORK_PACKAGE" then pos 1 else if s == "TASK" then pos 2 else pos 3

unfoldable pub declared_of : String → ℤ
declared_of s = if s == "DEFERRED" then pos 2 else if s == "DONE" then pos 3 else pos 1

unfoldable pub wp_state_of : Option String → ℤ
wp_state_of none = pos 1
wp_state_of (some s) =
    if s == "ACTIVE"
    then pos 2
    else if s == "DONE"
    then pos 3
    else if s == "ARCHIVED"
    then pos 4
    else pos 1

-- The matches of `row_to_verification`.
unfoldable pub agent_result_of : Option String → ℤ
agent_result_of none = pos 0
agent_result_of (some s) = if s == "PASS" then pos 1 else if s == "FAIL" then pos 2 else pos 0

unfoldable pub human_verdict_of : Option String → ℤ
human_verdict_of none = pos 0
human_verdict_of (some s) =
    if s == "ACCEPTED" then pos 1 else if s == "REJECTED" then pos 2 else pos 0

-- The match of `proto_event`.
unfoldable pub event_kind_of : String → ℤ
event_kind_of s =
    if s == "NODE_CREATED"
    then pos 1
    else if s == "NODE_UPDATED"
    then pos 2
    else if s == "NODE_DELETED"
    then pos 3
    else if s == "STATUS_SET"
    then pos 4
    else if s == "DEP_ADDED"
    then pos 5
    else if s == "DEP_REMOVED"
    then pos 6
    else if s == "AGENT_REPORTED"
    then pos 7
    else if s == "VERDICT_SET"
    then pos 8
    else if s == "COMMENT"
    then pos 9
    else pos 0

-- The match on `req.result` in `report_condition_locked`.
unfoldable pub result_str : ℤ → DResult String
result_str r =
    if eqb_ℤ r (pos 1)
    then ok "PASS"
    else if eqb_ℤ r (pos 2)
    then ok "FAIL"
    else err (from_db_message "invalid agent result")
