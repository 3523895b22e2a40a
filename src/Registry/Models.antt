-- ===== src/Registry/Models.antt =====
-- src/gnr/db/models.py: the five tables as lists of rows, in the order in which a query without
-- ORDER BY returns them. The timestamps `created_at`, `first_assigned_at` and `applied_at` are audit
-- data that nothing reads, and are left out.
use grid_node_registry.Prelude.{ℕ, ◌≡◌, refl, Option, List, [], Text}
use grid_node_registry.Sema.Enums.{BaseGNodeClass, GNodeStatus}
use grid_node_registry.Sema.GNode.{GNodeGt}
use grid_node_registry.Sema.Messages.{ConnectivityEdgeGt}

pub record PositionPointSql : Type 0 where
  pub id : Text
  pub ciphertext : Option (List ℕ)
  pub key_id : Option Text
  pub alg : Option Text

pub record GNodeSql : Type 0 where
  pub id : Text
  pub alias : Text
  pub prev_alias : Option Text
  pub base_class : BaseGNodeClass
  pub g_node_class : Text
  pub status : GNodeStatus
  pub position_point_id : Option Text
  pub display_name : Option Text

-- `to_gt` before pydantic validates the instance.
unfoldable pub gt_of_row : GNodeSql → GNodeGt
gt_of_row n = record {
  g_node_id = n.id;
  alias = n.alias;
  base_class = n.base_class;
  g_node_class = n.g_node_class;
  status = n.status;
  prev_alias = n.prev_alias;
  position_point_id = n.position_point_id;
  display_name = n.display_name;
}

unfoldable pub row_of_gt : GNodeGt → GNodeSql
row_of_gt gt = record {
  id = gt.g_node_id;
  alias = gt.alias;
  prev_alias = gt.prev_alias;
  base_class = gt.base_class;
  g_node_class = gt.g_node_class;
  status = gt.status;
  position_point_id = gt.position_point_id;
  display_name = gt.display_name;
}

pub record ConnectivityEdgeSql : Type 0 where
  pub id : Text
  pub from_g_node_id : Text
  pub to_g_node_id : Text
  pub status : GNodeStatus

unfoldable pub gt_of_edge : ConnectivityEdgeSql → ConnectivityEdgeGt
gt_of_edge e = record {
  id = e.id;
  from_g_node_id = e.from_g_node_id;
  to_g_node_id = e.to_g_node_id;
  status = e.status;
}

pub record AliasAssignmentSql : Type 0 where
  pub alias : Text
  pub g_node_id : Text

pub record CommandLogSql : Type 0 where
  pub command_hash : Text
  pub type_name : Text
  pub payload : Text

pub record Tables : Type 0 where
  pub position_points : List PositionPointSql
  pub g_nodes : List GNodeSql
  pub connectivity_edges : List ConnectivityEdgeSql
  pub alias_assignment : List AliasAssignmentSql
  pub command_log : List CommandLogSql

abbrev pub empty_tables : Tables
empty_tables = record {
  position_points = [];
  g_nodes = [];
  connectivity_edges = [];
  alias_assignment = [];
  command_log = [];
}

-- A node that is written and read back is the node that was sent.
pub gt_of_row-row_of_gt : (gt : GNodeGt) → gt_of_row (row_of_gt gt) ≡ gt
unfolding gt_of_row row_of_gt
gt_of_row-row_of_gt gt = refl
