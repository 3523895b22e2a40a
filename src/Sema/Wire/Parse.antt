-- ===== src/Sema/Wire/Parse.antt =====
-- `model_validate` of the message types of src/gnr/sema/types: the fields of a dict, and then the
-- validators. `none` is a ValidationError.
use grid_node_registry.Prelude.{Option, none, some, [], ◌∷◌, codes, if◌then◌else◌}
use grid_node_registry.Sema.Casing.{Json, object, Fields}
use grid_node_registry.Sema.GNode.{GNodeGt, Invalid, validate}
use grid_node_registry.Sema.Messages.{
  ConnectivityEdgeGt, GNodeCreateCmd, GNodeReparentCmd, GNodeForest, GNodeForestRequest,
  GNodeCmdAck, GNodeCmdNack, validate_edge, validate_create, validate_reparent, validate_forest,
  is_request,
}
use grid_node_registry.Sema.PositionPoint.{PositionPointGt, validate_point}
use grid_node_registry.Sema.Fields.{
  ◌>>=◌, as_list, as_text, as_int, as_milliseconds, as_class, as_status, get, get_optional,
  has_shape, require,
}

abbrev pub accept : {A : Type 0} → A → Option Invalid → Option A
accept a none = some a
accept a (some e) = none

-- A value that is no dict is refused.
abbrev pub as_dict : {A : Type 0} → (Fields → Option A) → Json → Option A
as_dict f (object fields) = f fields
as_dict f _ = none

unfoldable pub node_of : Fields → Option GNodeGt
unfolding get get_optional has_shape as_class as_status
node_of fields = do
  _ ← require (
      has_shape (codes "g.node.gt") (codes "006")
        (codes "GNodeId"
          ∷ codes "Alias"
          ∷ codes "BaseClass"
          ∷ codes "GNodeClass"
          ∷ codes "Status"
          ∷ codes "PrevAlias"
          ∷ codes "PositionPointId"
          ∷ codes "DisplayName"
          ∷ [])
        fields)
  g_node_id ← get (codes "GNodeId") as_text fields
  alias ← get (codes "Alias") as_text fields
  base_class ← get (codes "BaseClass") as_class fields
  g_node_class ← get (codes "GNodeClass") as_text fields
  status ← get (codes "Status") as_status fields
  prev_alias ← get_optional (codes "PrevAlias") fields
  position_point_id ← get_optional (codes "PositionPointId") fields
  display_name ← get_optional (codes "DisplayName") fields
  let node : GNodeGt = record {
    g_node_id = g_node_id;
    alias = alias;
    base_class = base_class;
    g_node_class = g_node_class;
    status = status;
    prev_alias = prev_alias;
    position_point_id = position_point_id;
    display_name = display_name;
  }
  accept node (validate node)

unfoldable pub edge_of : Fields → Option ConnectivityEdgeGt
unfolding get has_shape as_status
edge_of fields = do
  _ ← require (
      has_shape (codes "connectivity.edge.gt") (codes "000")
        (codes "Id" ∷ codes "FromGNodeId" ∷ codes "ToGNodeId" ∷ codes "Status" ∷ []) fields)
  id ← get (codes "Id") as_text fields
  from_g_node_id ← get (codes "FromGNodeId") as_text fields
  to_g_node_id ← get (codes "ToGNodeId") as_text fields
  status ← get (codes "Status") as_status fields
  let edge : ConnectivityEdgeGt = record {
    id = id;
    from_g_node_id = from_g_node_id;
    to_g_node_id = to_g_node_id;
    status = status;
  }
  accept edge (validate_edge edge)

unfoldable pub create_of : Fields → Option GNodeCreateCmd
unfolding get get_optional has_shape node_of
create_of fields = do
  _ ← require (
      has_shape (codes "g.node.create.cmd") (codes "001") (codes "NewNode" ∷ codes "Proof" ∷ [])
        fields)
  new_node ← get (codes "NewNode") (as_dict node_of) fields
  proof ← get_optional (codes "Proof") fields
  let cmd : GNodeCreateCmd = record { new_node = new_node; proof = proof }
  accept cmd (validate_create cmd)

unfoldable pub reparent_of : Fields → Option GNodeReparentCmd
unfolding get get_optional has_shape node_of
reparent_of fields = do
  _ ← require (
      has_shape (codes "g.node.reparent.cmd") (codes "002")
        (codes "NewNode" ∷ codes "MovedChildGNodeIds" ∷ codes "Proof" ∷ []) fields)
  new_node ← get (codes "NewNode") (as_dict node_of) fields
  moved_child_g_node_ids ← get (codes "MovedChildGNodeIds") (as_list as_text) fields
  proof ← get_optional (codes "Proof") fields
  let cmd : GNodeReparentCmd = record {
    new_node = new_node;
    moved_child_g_node_ids = moved_child_g_node_ids;
    proof = proof;
  }
  accept cmd (validate_reparent cmd)

unfoldable pub forest_of : Fields → Option GNodeForest
unfolding get get_optional has_shape node_of edge_of
forest_of fields = do
  _ ← require (
      has_shape (codes "g.node.forest") (codes "002")
        (codes "Roots" ∷ codes "Nodes" ∷ codes "Edges" ∷ codes "SendTimeMs" ∷ codes "Proof" ∷ [])
        fields)
  roots ← get (codes "Roots") (as_list as_text) fields
  nodes ← get (codes "Nodes") (as_list (as_dict node_of)) fields
  edges ← get (codes "Edges") (as_list (as_dict edge_of)) fields
  send_time_ms ← get (codes "SendTimeMs") as_milliseconds fields
  proof ← get_optional (codes "Proof") fields
  let forest : GNodeForest = record {
    roots = roots;
    nodes = nodes;
    edges = edges;
    send_time_ms = send_time_ms;
    proof = proof;
  }
  accept forest (validate_forest forest)

unfoldable pub request_of : Fields → Option GNodeForestRequest
unfolding get has_shape
request_of fields = do
  _ ← require (
      has_shape (codes "g.node.forest.request") (codes "000")
        (codes "Roots" ∷ codes "RequestId" ∷ []) fields)
  roots ← get (codes "Roots") (as_list as_text) fields
  request_id ← get (codes "RequestId") as_text fields
  let request : GNodeForestRequest = record { roots = roots; request_id = request_id }
  if is_request request then some request else none

unfoldable pub point_of : Fields → Option PositionPointGt
unfolding get has_shape
point_of fields = do
  _ ← require (
      has_shape (codes "position.point.gt") (codes "000")
        (codes "Id" ∷ codes "LatitudeMicroDeg" ∷ codes "LongitudeMicroDeg" ∷ []) fields)
  id ← get (codes "Id") as_text fields
  latitude_micro_deg ← get (codes "LatitudeMicroDeg") as_int fields
  longitude_micro_deg ← get (codes "LongitudeMicroDeg") as_int fields
  let point : PositionPointGt = record {
    id = id;
    latitude_micro_deg = latitude_micro_deg;
    longitude_micro_deg = longitude_micro_deg;
  }
  accept point (validate_point point)

unfoldable pub ack_of : Fields → Option GNodeCmdAck
unfolding get has_shape
ack_of fields = do
  _ ← require (has_shape (codes "g.node.cmd.ack") (codes "000") (codes "CommandHash" ∷ []) fields)
  command_hash ← get (codes "CommandHash") as_text fields
  some (record { command_hash = command_hash })

unfoldable pub nack_of : Fields → Option GNodeCmdNack
unfolding get has_shape
nack_of fields = do
  _ ← require (
      has_shape (codes "g.node.cmd.nack") (codes "000") (codes "CommandHash" ∷ codes "Reason" ∷ [])
        fields)
  command_hash ← get (codes "CommandHash") as_text fields
  reason ← get (codes "Reason") as_text fields
  some (record { command_hash = command_hash; reason = reason })
