-- ===== src/Store/Reports.antt =====
-- flowcore/src/store.rs: report_condition_locked, set_verdict_locked and add_comment_locked.
use flowcontrol.Common.{ℕ, zero, suc, ℤ, pos, String, [], ◌∷◌, concat, if◌then◌else◌, eqb_ℤ, ltb}
use flowcontrol.Json.{Json, string, object, end, field}
use flowcontrol.Schema.{Host}
use flowcontrol.Sql.{◌>>=◌, ◌>>◌, pure, lift, transaction}
use flowcontrol.Message.{
  Mutation, Node, ReportConditionRequest, SetVerdictRequest, AddCommentRequest,
}
use flowcontrol.Statement.{Session, execute, engine}
use flowcontrol.Statement.Syntax.{Statement, upsert_agent, upsert_verdict, clear_verdict}
use flowcontrol.Store.Values.{result_str}
use flowcontrol.Store.Reads.{fetch_node, check_idempotency}
use flowcontrol.Store.Helpers.{
  author_of, idem_key, append_event, record_idempotency, finish_mutation, require, unless_replayed,
}

-- json!({ "result": result, "detail": detail })
abbrev pub report_json : String → String → Json
report_json result detail =
    object (field "result" (string result) (field "detail" (string detail) end))

unfoldable pub report_fresh : Host → ReportConditionRequest → Node → Session Mutation
unfolding result_str execute author_of idem_key append_event record_idempotency finish_mutation
    transaction
report_fresh host req current = do
  result ← lift (result_str req.result)
  event ← transaction (engine host) do
    execute host (upsert_agent req.node_id result (author_of req.meta) req.detail)
    event ←
        append_event host current.project_id req.node_id "AGENT_REPORTED" (author_of req.meta)
          (concat ("agent reported " ∷ result ∷ " on " ∷ req.node_id ∷ []))
          (host.to_string (report_json result req.detail))
    record_idempotency host current.project_id (idem_key req.meta) event.seq
    pure event
  finish_mutation current.project_id (event ∷ []) (req.node_id ∷ [])

unfoldable pub report_condition_locked : Host → ReportConditionRequest → Session Mutation
unfolding fetch_node check_idempotency idem_key report_fresh
report_condition_locked host req = do
  found ← fetch_node req.node_id
  current ← require "node not found" found
  hit ← check_idempotency current.project_id (idem_key req.meta)
  unless_replayed hit (report_fresh host req current)

-- The match on `req.verdict`.
unfoldable pub verdict_statement : String → ℤ → Statement
verdict_statement id v =
    if eqb_ℤ v (pos 1)
    then upsert_verdict id "ACCEPTED"
    else if eqb_ℤ v (pos 2)
    then upsert_verdict id "REJECTED"
    else clear_verdict id

unfoldable pub verdict_fresh : Host → SetVerdictRequest → Node → Session Mutation
unfolding verdict_statement execute author_of idem_key append_event record_idempotency
    finish_mutation transaction
verdict_fresh host req current = do
  event ← transaction (engine host) do
    execute host (verdict_statement req.node_id req.verdict)
    event ←
        append_event host current.project_id req.node_id "VERDICT_SET" (author_of req.meta)
          (concat ("verdict set on " ∷ req.node_id ∷ [])) "{}"
    record_idempotency host current.project_id (idem_key req.meta) event.seq
    pure event
  finish_mutation current.project_id (event ∷ []) (req.node_id ∷ [])

unfoldable pub set_verdict_locked : Host → SetVerdictRequest → Session Mutation
unfolding fetch_node check_idempotency idem_key verdict_fresh
set_verdict_locked host req = do
  found ← fetch_node req.node_id
  current ← require "node not found" found
  hit ← check_idempotency current.project_id (idem_key req.meta)
  unless_replayed hit (verdict_fresh host req current)

-- `text.chars().take(n)`
abbrev pub take_chars : ℕ → String → String
take_chars zero s = ""
take_chars (suc n) String.[] = ""
take_chars (suc n) (String.◌∷◌ c s) = String.◌∷◌ c (take_chars n s)

-- `text.chars().count()`
abbrev pub count_chars : String → ℕ
count_chars String.[] = 0
count_chars (String.◌∷◌ c s) = suc (count_chars s)

unfoldable pub comment_summary : String → String
comment_summary text =
    if ltb 96 (count_chars text) then concat (take_chars 96 text ∷ "…" ∷ []) else text

-- json!({ "text": text, "author": author })
abbrev pub comment_json : String → String → Json
comment_json text author = object (field "text" (string text) (field "author" (string author) end))

unfoldable pub comment_fresh : Host → AddCommentRequest → Node → Session Mutation
unfolding comment_summary author_of idem_key append_event record_idempotency finish_mutation
    transaction
comment_fresh host req current = do
  event ← transaction (engine host) do
    event ←
        append_event host current.project_id req.node_id "COMMENT" (author_of req.meta)
          (comment_summary req.text) (host.to_string (comment_json req.text (author_of req.meta)))
    record_idempotency host current.project_id (idem_key req.meta) event.seq
    pure event
  finish_mutation current.project_id (event ∷ []) (req.node_id ∷ [])

unfoldable pub add_comment_locked : Host → AddCommentRequest → Session Mutation
unfolding fetch_node check_idempotency idem_key comment_fresh
add_comment_locked host req = do
  found ← fetch_node req.node_id
  current ← require "node not found" found
  hit ← check_idempotency current.project_id (idem_key req.meta)
  unless_replayed hit (comment_fresh host req current)
