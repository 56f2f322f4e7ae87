-- ===== src/Store/Payload.antt =====
-- flowcore/src/store.rs: the JSON payloads of the events, written by the operations and read by undo.
use flowcontrol.Common.{
  pos, String, Option, none, some, ◌==◌, if◌then◌else◌, eqb_ℤ, unwrap_or, wrap_i32,
}
use flowcontrol.Json.{Json, null, string, number, object, end, field, get, opt_as_str, opt_as_i64}
use flowcontrol.Message.{Node}
use flowcontrol.Schema.{Host}
use flowcontrol.Statement.Syntax.{NodeValues}
use flowcontrol.Store.Values.{kind_str, declared_str, wp_str, wp_state_str, declared_str_from}

-- json!({ "after": { "id": id, "title": title } })
abbrev pub created_json : String → String → Json
created_json id name =
    object (field "after" (object (field "id" (string id) (field "title" (string name) end))) end)

-- json!({ "before": before, "after": after })
abbrev pub status_json : String → String → Json
status_json before after =
    object (field "before" (string before) (field "after" (string after) end))

-- json!({ "blocker_id": a, "blocked_id": b })
abbrev pub edge_json : String → String → Json
edge_json a b = object (field "blocker_id" (string a) (field "blocked_id" (string b) end))

-- json!({ "before": { "id": id } })
abbrev pub dropped_json : String → Json
dropped_json id = object (field "before" (object (field "id" (string id) end)) end)

-- json!({ "before": { "parent_id": …, "kind": … }, "after": { … } })
abbrev pub place_json : String → String → Json
place_json parent kind = object (field "parent_id" (string parent) (field "kind" (string kind) end))

abbrev pub moved_json : Json → Json → Json
moved_json before after = object (field "before" before (field "after" after end))

abbrev pub opt_string : Option String → Json
opt_string none = null
opt_string (some s) = string s

unfoldable pub wp_of_node : Node → Option String
unfolding wp_str
wp_of_node n = if eqb_ℤ n.kind (pos 1) then wp_str n.wp_state else none

-- The object under "before" of `node_before_json`.
unfoldable pub node_object : Node → Json
unfolding kind_str declared_str wp_of_node
node_object n = object (
    field "id" (string n.id) (
      field "project_id" (string n.project_id) (
        field "parent_id" (string n.parent_id) (
          field "kind" (string (kind_str n.kind)) (
            field "title" (string n.title) (
              field "description" (string n.description) (
                field "condition" (string n.condition) (
                  field "note" (string n.note) (
                    field "reference" (string n.reference) (
                      field "declared_status" (string (declared_str n.declared_status)) (
                        field "wp_state" (opt_string (wp_of_node n))
                          (field "position" (number n.position) end))))))))))))

-- Enough of a node to insert it again after a delete.
unfoldable pub node_before_json : Host → Node → String
unfolding node_object
node_before_json host n = host.to_string (object (field "before" (node_object n) end))

abbrev pub opt_get : Option Json → String → Option Json
opt_get none key = none
opt_get (some v) key = get v key

-- A text field of a JSON payload.
unfoldable pub payload_get : Host → String → String → Option String
payload_get host payload key = opt_as_str (opt_get (host.from_str payload) key)

unfoldable pub str_val : Json → String → String
str_val obj key = unwrap_or (opt_as_str (get obj key)) ""

-- The parameters that `restore_node` reads out of the object.
unfoldable pub restored_values : Json → NodeValues
unfolding str_val wp_state_str declared_str_from
restored_values obj = record {
  id = str_val obj "id";
  project_id = str_val obj "project_id";
  parent_id = str_val obj "parent_id";
  kind = str_val obj "kind";
  title = str_val obj "title";
  description = str_val obj "description";
  condition = str_val obj "condition";
  note = str_val obj "note";
  reference = str_val obj "reference";
  declared_status = declared_str_from (str_val obj "declared_status");
  wp_state =
      if str_val obj "kind" == "WORK_PACKAGE"
      then wp_state_str (opt_as_str (get obj "wp_state"))
      else none;
  position = wrap_i32 (unwrap_or (opt_as_i64 (get obj "position")) (pos 0));
}
