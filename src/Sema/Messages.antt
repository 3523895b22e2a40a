-- ===== src/Sema/Messages.antt =====
-- The other message types of src/gnr/sema/types. `type_name` and `version` are constants, and are
-- not fields here. A validator gives `none` where it accepts.
use grid_node_registry.Prelude.{
  ℕ, Bool, ◌&&◌, Option, none, some, if◌then◌else◌, List, Text, text_eq, option_eq, ◌==◌, all,
}
use grid_node_registry.Sema.Enums.{GNodeStatus}
use grid_node_registry.Sema.Format.{is_left_right_dot, is_uuid4_str, is_utc_milliseconds}
use grid_node_registry.Sema.GNode.{GNodeGt, Invalid, field_format, axiom_failed}

pub record ConnectivityEdgeGt : Type 0 where
  pub id : Text
  pub from_g_node_id : Text
  pub to_g_node_id : Text
  pub status : GNodeStatus

-- NoSelfLoop
unfoldable pub validate_edge : ConnectivityEdgeGt → Option Invalid
unfolding text_eq
validate_edge e =
    if is_uuid4_str e.id && is_uuid4_str e.from_g_node_id && is_uuid4_str e.to_g_node_id
    then (if e.from_g_node_id == e.to_g_node_id then some (axiom_failed 1) else none)
    else some field_format

pub record GNodeCreateCmd : Type 0 where
  pub new_node : GNodeGt
  pub proof : Option Text

-- LocationlessAtCreation
unfoldable pub validate_create : GNodeCreateCmd → Option Invalid
unfolding option_eq text_eq
validate_create cmd = if cmd.new_node.position_point_id == none then none else some (axiom_failed 1)

pub record GNodeReparentCmd : Type 0 where
  pub new_node : GNodeGt
  pub moved_child_g_node_ids : List Text
  pub proof : Option Text

unfoldable pub validate_reparent : GNodeReparentCmd → Option Invalid
validate_reparent cmd =
    if all is_uuid4_str cmd.moved_child_g_node_ids then none else some field_format

pub record GNodeForest : Type 0 where
  pub roots : List Text
  pub nodes : List GNodeGt
  pub edges : List ConnectivityEdgeGt
  pub send_time_ms : ℕ
  pub proof : Option Text

-- The fields; nodes and edges are instances already.
unfoldable pub validate_forest : GNodeForest → Option Invalid
validate_forest f =
    if all is_left_right_dot f.roots && is_utc_milliseconds f.send_time_ms
    then none
    else some field_format

pub record GNodeForestRequest : Type 0 where
  pub roots : List Text
  pub request_id : Text

unfoldable pub is_request : GNodeForestRequest → Bool
is_request r = all is_left_right_dot r.roots && is_uuid4_str r.request_id

pub record GNodeCmdAck : Type 0 where
  pub command_hash : Text

pub record GNodeCmdNack : Type 0 where
  pub command_hash : Text
  pub reason : Text
