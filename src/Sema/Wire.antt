-- ===== src/Sema/Wire.antt =====
-- The dicts of the message types of src/gnr/sema/types: what `to_dict` of src/gnr/sema/base.py gives for
-- an instance.
pub mod Parse
pub mod Laws
pub mod Keys
use grid_node_registry.Prelude.{ℤ, pos, Option, none, some, List, Text, codes}
use grid_node_registry.Sema.Casing.{Json, text, number, array, object, Fields, end, field}
use grid_node_registry.Sema.Enums.{class_value, status_value}
use grid_node_registry.Sema.GNode.{GNodeGt}
use grid_node_registry.Sema.Messages.{
  ConnectivityEdgeGt, GNodeCreateCmd, GNodeReparentCmd, GNodeForest, GNodeForestRequest,
  GNodeCmdAck, GNodeCmdNack,
}
use grid_node_registry.Sema.PositionPoint.{PositionPointGt}
use grid_node_registry.Sema.Fields.{with_optional, with_head, items_of}

-- An instance of one of the types.
pub data Message : Type 0 where
  connectivity_edge_gt : ConnectivityEdgeGt → Message
  g_node_cmd_ack : GNodeCmdAck → Message
  g_node_cmd_nack : GNodeCmdNack → Message
  g_node_create_cmd : GNodeCreateCmd → Message
  g_node_forest : GNodeForest → Message
  g_node_forest_request : GNodeForestRequest → Message
  g_node_gt : GNodeGt → Message
  g_node_reparent_cmd : GNodeReparentCmd → Message
  position_point_gt : PositionPointGt → Message

abbrev texts : List Text → Json
texts ss = array (items_of text ss)

unfoldable pub node_fields : GNodeGt → Fields
unfolding class_value status_value
node_fields n = with_head (codes "g.node.gt") (codes "006") (
    field (codes "GNodeId") (text n.g_node_id) (
      field (codes "Alias") (text n.alias) (
        field (codes "BaseClass") (text (class_value n.base_class)) (
          field (codes "GNodeClass") (text n.g_node_class) (
            field (codes "Status") (text (status_value n.status)) (
              with_optional (codes "PrevAlias") n.prev_alias (
                with_optional (codes "PositionPointId") n.position_point_id
                  (with_optional (codes "DisplayName") n.display_name end))))))))

unfoldable pub edge_fields : ConnectivityEdgeGt → Fields
unfolding status_value
edge_fields e = with_head (codes "connectivity.edge.gt") (codes "000") (
    field (codes "Id") (text e.id) (
      field (codes "FromGNodeId") (text e.from_g_node_id) (
        field (codes "ToGNodeId") (text e.to_g_node_id)
          (field (codes "Status") (text (status_value e.status)) end))))

unfoldable pub create_fields : GNodeCreateCmd → Fields
unfolding node_fields
create_fields cmd = with_head (codes "g.node.create.cmd") (codes "001") (
    field (codes "NewNode") (object (node_fields cmd.new_node))
      (with_optional (codes "Proof") cmd.proof end))

unfoldable pub reparent_fields : GNodeReparentCmd → Fields
unfolding node_fields
reparent_fields cmd = with_head (codes "g.node.reparent.cmd") (codes "002") (
    field (codes "NewNode") (object (node_fields cmd.new_node)) (
      field (codes "MovedChildGNodeIds") (texts cmd.moved_child_g_node_ids)
        (with_optional (codes "Proof") cmd.proof end)))

unfoldable pub forest_fields : GNodeForest → Fields
unfolding node_fields edge_fields
forest_fields f = with_head (codes "g.node.forest") (codes "002") (
    field (codes "Roots") (texts f.roots) (
      field (codes "Nodes") (array (items_of (λ n. object (node_fields n)) f.nodes)) (
        field (codes "Edges") (array (items_of (λ e. object (edge_fields e)) f.edges)) (
          field (codes "SendTimeMs") (number (pos f.send_time_ms))
            (with_optional (codes "Proof") f.proof end)))))

unfoldable pub request_fields : GNodeForestRequest → Fields
request_fields r =
    with_head (codes "g.node.forest.request") (codes "000")
      (field (codes "Roots") (texts r.roots) (field (codes "RequestId") (text r.request_id) end))

unfoldable pub point_fields : PositionPointGt → Fields
point_fields p = with_head (codes "position.point.gt") (codes "000") (
    field (codes "Id") (text p.id) (
      field (codes "LatitudeMicroDeg") (number p.latitude_micro_deg)
        (field (codes "LongitudeMicroDeg") (number p.longitude_micro_deg) end)))

unfoldable pub ack_fields : GNodeCmdAck → Fields
ack_fields a =
    with_head (codes "g.node.cmd.ack") (codes "000")
      (field (codes "CommandHash") (text a.command_hash) end)

unfoldable pub nack_fields : GNodeCmdNack → Fields
nack_fields a =
    with_head (codes "g.node.cmd.nack") (codes "000") (
      field (codes "CommandHash") (text a.command_hash)
        (field (codes "Reason") (text a.reason) end))

unfoldable pub fields_of : Message → Fields
unfolding node_fields edge_fields create_fields reparent_fields forest_fields request_fields
    point_fields ack_fields nack_fields
fields_of (connectivity_edge_gt e) = edge_fields e
fields_of (g_node_cmd_ack a) = ack_fields a
fields_of (g_node_cmd_nack a) = nack_fields a
fields_of (g_node_create_cmd cmd) = create_fields cmd
fields_of (g_node_forest f) = forest_fields f
fields_of (g_node_forest_request r) = request_fields r
fields_of (g_node_gt n) = node_fields n
fields_of (g_node_reparent_cmd cmd) = reparent_fields cmd
fields_of (position_point_gt p) = point_fields p

-- SemaType.to_dict
unfoldable pub to_dict : Message → Json
unfolding fields_of
to_dict m = object (fields_of m)
