-- ===== src/Migrations/Revisions.antt =====
-- The revisions of src/alembic/versions: a0b1c2d3e4f5 makes the tables, b7d2e9f4c1a8 gives the positions
-- their encrypted shape and their foreign key.
use grid_node_registry.Prelude.{Bool, true, false, none, some, List, [], ◌∷◌, Text, codes}
use grid_node_registry.Migrations.{
  ColumnType, string, integer, date_time, large_binary, enum, Column, ForeignKey, Index, Table,
  Operation, create_table, drop_table, create_index, drop_index, add_column, drop_column,
  create_foreign_key, drop_constraint, insert_carried,
}

abbrev pub column : Text → ColumnType → Bool → Column
column name type_ nullable = record {
  name = name;
  type_ = type_;
  nullable = nullable;
  server_default = none;
}

abbrev pub foreign_key : Text → Text → Text → ForeignKey
foreign_key column target target_column = record {
  constraint = none;
  columns = column ∷ [];
  target = target;
  target_columns = target_column ∷ [];
}

abbrev pub index_on : Text → Text → Bool → Index
index_on name column unique = record { name = name; columns = column ∷ []; unique = unique }

abbrev pub base_class_values : List Text
base_class_values =
    codes "TerminalAsset"
    ∷ codes "LeafTransactiveNode"
    ∷ codes "ConnectivityNode"
    ∷ codes "MarketMaker"
    ∷ codes "Logical"
    ∷ []

abbrev pub status_values : List Text
status_values =
    codes "Pending" ∷ codes "Active" ∷ codes "Suspended" ∷ codes "PermanentlyDeactivated" ∷ []

abbrev pub initial_position_points : Table
initial_position_points = record {
  name = codes "position_points";
  columns =
      column (codes "id") string false
      ∷ column (codes "latitude_micro_deg") integer false
      ∷ column (codes "longitude_micro_deg") integer false
      ∷ column (codes "created_at") date_time false
      ∷ [];
  primary_key = codes "id" ∷ [];
  foreign_keys = [];
  unique_constraints = [];
  indexes = [];
}

abbrev pub initial_g_nodes : Table
initial_g_nodes = record {
  name = codes "g_nodes";
  columns =
      column (codes "id") string false
      ∷ column (codes "alias") string false
      ∷ column (codes "prev_alias") string true
      ∷ column (codes "base_class") (enum (codes "base_g_node_class") base_class_values) false
      ∷ column (codes "g_node_class") string false
      ∷ column (codes "status") (enum (codes "g_node_status") status_values) false
      ∷ column (codes "position_point_id") string true
      ∷ column (codes "display_name") string true
      ∷ column (codes "created_at") date_time false
      ∷ [];
  primary_key = codes "id" ∷ [];
  foreign_keys = [];
  unique_constraints = [];
  indexes = [];
}

abbrev pub initial_connectivity_edges : Table
initial_connectivity_edges = record {
  name = codes "connectivity_edges";
  columns =
      column (codes "id") string false
      ∷ column (codes "from_g_node_id") string false
      ∷ column (codes "to_g_node_id") string false
      ∷ column (codes "status") (enum (codes "connectivity_edge_status") status_values) false
      ∷ column (codes "created_at") date_time false
      ∷ [];
  primary_key = codes "id" ∷ [];
  foreign_keys =
      foreign_key (codes "from_g_node_id") (codes "g_nodes") (codes "id")
      ∷ foreign_key (codes "to_g_node_id") (codes "g_nodes") (codes "id")
      ∷ [];
  unique_constraints =
      (codes "uq_connectivity_edges_from_to", codes "from_g_node_id" ∷ codes "to_g_node_id" ∷ [])
      ∷ [];
  indexes = [];
}

abbrev pub initial_alias_assignment : Table
initial_alias_assignment = record {
  name = codes "alias_assignment";
  columns =
      column (codes "alias") string false
      ∷ column (codes "g_node_id") string false
      ∷ column (codes "first_assigned_at") date_time false
      ∷ [];
  primary_key = codes "alias" ∷ [];
  foreign_keys = foreign_key (codes "g_node_id") (codes "g_nodes") (codes "id") ∷ [];
  unique_constraints = [];
  indexes = [];
}

abbrev pub initial_command_log : Table
initial_command_log = record {
  name = codes "command_log";
  columns =
      column (codes "command_hash") string false
      ∷ column (codes "type_name") string false
      ∷ column (codes "payload") string false
      ∷ column (codes "applied_at") date_time false
      ∷ [];
  primary_key = codes "command_hash" ∷ [];
  foreign_keys = [];
  unique_constraints = [];
  indexes = [];
}

unfoldable pub upgrade_initial : List Operation
upgrade_initial =
    create_table initial_position_points
    ∷ create_table initial_g_nodes
    ∷ create_index (codes "g_nodes") (index_on (codes "ix_g_nodes_alias") (codes "alias") true)
    ∷ create_table initial_connectivity_edges
    ∷ create_index (codes "connectivity_edges")
        (index_on (codes "ix_connectivity_edges_from_g_node_id") (codes "from_g_node_id") false)
    ∷ create_index (codes "connectivity_edges")
        (index_on (codes "ix_connectivity_edges_to_g_node_id") (codes "to_g_node_id") false)
    ∷ create_table initial_alias_assignment
    ∷ create_index (codes "alias_assignment")
        (index_on (codes "ix_alias_assignment_g_node_id") (codes "g_node_id") false)
    ∷ create_table initial_command_log
    ∷ []

unfoldable pub downgrade_initial : List Operation
downgrade_initial =
    drop_table (codes "command_log")
    ∷ drop_index (codes "alias_assignment") (codes "ix_alias_assignment_g_node_id")
    ∷ drop_table (codes "alias_assignment")
    ∷ drop_index (codes "connectivity_edges") (codes "ix_connectivity_edges_to_g_node_id")
    ∷ drop_index (codes "connectivity_edges") (codes "ix_connectivity_edges_from_g_node_id")
    ∷ drop_table (codes "connectivity_edges")
    ∷ drop_index (codes "g_nodes") (codes "ix_g_nodes_alias")
    ∷ drop_table (codes "g_nodes")
    ∷ drop_table (codes "position_points")
    ∷ []

abbrev pub position_key : ForeignKey
position_key =
    record (foreign_key (codes "position_point_id") (codes "position_points") (codes "id")) {
      constraint = some (codes "fk_g_nodes_position_point_id");
    }

unfoldable pub upgrade_lifecycle : List Operation
upgrade_lifecycle =
    drop_column (codes "position_points") (codes "latitude_micro_deg")
    ∷ drop_column (codes "position_points") (codes "longitude_micro_deg")
    ∷ add_column (codes "position_points") (column (codes "ciphertext") large_binary true)
    ∷ add_column (codes "position_points") (column (codes "key_id") string true)
    ∷ add_column (codes "position_points") (column (codes "alg") string true)
    ∷ insert_carried
    ∷ create_foreign_key (codes "g_nodes") position_key
    ∷ []

abbrev pub zero_by_default : Text → Column
zero_by_default name = record (column name integer false) { server_default = some (codes "0") }

unfoldable pub downgrade_lifecycle : List Operation
downgrade_lifecycle =
    drop_constraint (codes "g_nodes") (codes "fk_g_nodes_position_point_id")
    ∷ drop_column (codes "position_points") (codes "alg")
    ∷ drop_column (codes "position_points") (codes "key_id")
    ∷ drop_column (codes "position_points") (codes "ciphertext")
    ∷ add_column (codes "position_points") (zero_by_default (codes "latitude_micro_deg"))
    ∷ add_column (codes "position_points") (zero_by_default (codes "longitude_micro_deg"))
    ∷ []
