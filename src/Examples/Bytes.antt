-- ===== src/Examples/Bytes.antt =====
-- Bytes on the small plan: a codec whose bytes are the id of a project, which is a snapshot's request.
use flowcontrol.Common.{String, none}
use flowcontrol.Statement.{Conn}
use flowcontrol.Store.Codec.{Codec, decoded, refused}
use flowcontrol.Examples.Samples.{sample_db}

abbrev plain : Codec String
plain = record {
  decode_list_projects = λ b. refused "no message";
  decode_get_snapshot = λ b. decoded (record { project_id = b });
  decode_list_events = λ b. refused "no message";
  decode_search_nodes = λ b. refused "no message";
  decode_poll_changes = λ b. refused "no message";
  decode_create_node = λ b. refused "no message";
  decode_update_node = λ b. refused "no message";
  decode_delete_node = λ b. refused "no message";
  decode_set_status = λ b. refused "no message";
  decode_add_dependency = λ b. refused "no message";
  decode_remove_dependency = λ b. refused "no message";
  decode_report_condition = λ b. refused "no message";
  decode_set_verdict = λ b. refused "no message";
  decode_add_comment = λ b. refused "no message";
  decode_undo = λ b. refused "no message";
  decode_move_node = λ b. refused "no message";
  decode_create_project = λ b. refused "no message";
  decode_update_project = λ b. refused "no message";
  decode_archive_project = λ b. refused "no message";
  encode = λ r. "response";
}

abbrev at_rest : Conn
at_rest = record { db = sample_db; saved = none }
