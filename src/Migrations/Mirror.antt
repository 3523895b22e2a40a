-- ===== src/Migrations/Mirror.antt =====
-- The tables that src/gnr/db/models.py declares, to compare them with those that the revisions leave.
-- SQLAlchemy names the index of a column `ix_<table>_<column>`, and its foreign keys not at all.
use grid_node_registry.Prelude.{
  ◌≡◌, refl, true, false, none, some, Option, List, [], ◌∷◌, Text, codes, map, sort, text_leb,
}
use grid_node_registry.Sema.Enums.{class_values}
use grid_node_registry.Migrations.{
  string, date_time, large_binary, enum, Column, ForeignKey, Table, Database, migrate,
}
use grid_node_registry.Migrations.Revisions.{
  column, foreign_key, index_on, status_values, initial_position_points, initial_g_nodes,
  initial_connectivity_edges, initial_alias_assignment, initial_command_log, position_key,
  zero_by_default, upgrade_initial, downgrade_initial,
}

abbrev pub position_points_table : Table
position_points_table = record {
  name = codes "position_points";
  columns =
      column (codes "id") string false
      ∷ column (codes "ciphertext") large_binary true
      ∷ column (codes "key_id") string true
      ∷ column (codes "alg") string true
      ∷ column (codes "created_at") date_time false
      ∷ [];
  primary_key = codes "id" ∷ [];
  foreign_keys = [];
  unique_constraints = [];
  indexes = [];
}

abbrev pub g_nodes_table : Table
g_nodes_table = record {
  name = codes "g_nodes";
  columns =
      column (codes "id") string false
      ∷ column (codes "alias") string false
      ∷ column (codes "prev_alias") string true
      ∷ column (codes "base_class") (enum (codes "base_g_node_class") class_values) false
      ∷ column (codes "g_node_class") string false
      ∷ column (codes "status") (enum (codes "g_node_status") status_values) false
      ∷ column (codes "position_point_id") string true
      ∷ column (codes "display_name") string true
      ∷ column (codes "created_at") date_time false
      ∷ [];
  primary_key = codes "id" ∷ [];
  foreign_keys =
      foreign_key (codes "position_point_id") (codes "position_points") (codes "id") ∷ [];
  unique_constraints = [];
  indexes = index_on (codes "ix_g_nodes_alias") (codes "alias") true ∷ [];
}

abbrev pub connectivity_edges_table : Table
connectivity_edges_table = record {
  name = codes "connectivity_edges";
  columns =
      column (codes "id") string false
      ∷ column (codes "from_g_node_id") string false
      ∷ column (codes "to_g_node_id") string false
      ∷ column (codes "status") (enum (codes "connectivity_edge_status") status_values) false
      ∷ column (codes "created_at") date_time false
      ∷ [];
  primary_key = codes "id" ∷ [];
  foreign_keys =
      foreign_key (codes "from_g_node_id") (codes "g_nodes") (codes "id")
      ∷ foreign_key (codes "to_g_node_id") (codes "g_nodes") (codes "id")
      ∷ [];
  unique_constraints =
      (codes "uq_connectivity_edges_from_to", codes "from_g_node_id" ∷ codes "to_g_node_id" ∷ [])
      ∷ [];
  indexes =
      index_on (codes "ix_connectivity_edges_from_g_node_id") (codes "from_g_node_id") false
      ∷ index_on (codes "ix_connectivity_edges_to_g_node_id") (codes "to_g_node_id") false
      ∷ [];
}

abbrev pub alias_assignment_table : Table
alias_assignment_table = record {
  name = codes "alias_assignment";
  columns =
      column (codes "alias") string false
      ∷ column (codes "g_node_id") string false
      ∷ column (codes "first_assigned_at") date_time false
      ∷ [];
  primary_key = codes "alias" ∷ [];
  foreign_keys = foreign_key (codes "g_node_id") (codes "g_nodes") (codes "id") ∷ [];
  unique_constraints = [];
  indexes = index_on (codes "ix_alias_assignment_g_node_id") (codes "g_node_id") false ∷ [];
}

abbrev pub command_log_table : Table
command_log_table = record {
  name = codes "command_log";
  columns =
      column (codes "command_hash") string false
      ∷ column (codes "type_name") string false
      ∷ column (codes "payload") string false
      ∷ column (codes "applied_at") date_time false
      ∷ [];
  primary_key = codes "command_hash" ∷ [];
  foreign_keys = [];
  unique_constraints = [];
  indexes = [];
}

-- Base.metadata
abbrev pub metadata : List Table
metadata =
    position_points_table ∷ g_nodes_table ∷ connectivity_edges_table ∷ alias_assignment_table
    ∷ command_log_table ∷ []

-- What counts of a table: not the order of its columns, nor their defaults, nor the names of its
-- foreign keys.
abbrev pub shape : Table → Table
unfolding sort text_leb
shape t = record t {
  columns =
      map (λ (c : Column). record c { server_default = none })
        (sort (λ (b c : Column). text_leb b.name c.name) t.columns);
  foreign_keys = map (λ (k : ForeignKey). record k { constraint = none }) t.foreign_keys;
}

abbrev indexed_g_nodes : Table
indexed_g_nodes = record initial_g_nodes {
  indexes = index_on (codes "ix_g_nodes_alias") (codes "alias") true ∷ [];
}

-- The tables that neither revision changes after it has made their indexes.
abbrev lasting_tables : List Table
lasting_tables =
    record initial_connectivity_edges {
      indexes =
          index_on (codes "ix_connectivity_edges_from_g_node_id") (codes "from_g_node_id") false
          ∷ index_on (codes "ix_connectivity_edges_to_g_node_id") (codes "to_g_node_id") false
          ∷ [];
    }
    ∷ record initial_alias_assignment {
      indexes = index_on (codes "ix_alias_assignment_g_node_id") (codes "g_node_id") false ∷ [];
    }
    ∷ initial_command_log
    ∷ []

-- What the first revision leaves, and the second.
abbrev pub initial_tables : List Table
initial_tables = initial_position_points ∷ indexed_g_nodes ∷ lasting_tables

abbrev pub lifecycle_tables : List Table
lifecycle_tables =
    record initial_position_points {
      columns =
          column (codes "id") string false
          ∷ column (codes "created_at") date_time false
          ∷ column (codes "ciphertext") large_binary true
          ∷ column (codes "key_id") string true
          ∷ column (codes "alg") string true
          ∷ [];
    }
    ∷ record indexed_g_nodes { foreign_keys = position_key ∷ [] }
    ∷ lasting_tables

-- What the second leaves when it is taken back.
abbrev pub restored_tables : List Table
restored_tables =
    record initial_position_points {
      columns =
          column (codes "id") string false
          ∷ column (codes "created_at") date_time false
          ∷ zero_by_default (codes "latitude_micro_deg")
          ∷ zero_by_default (codes "longitude_micro_deg")
          ∷ [];
    }
    ∷ indexed_g_nodes
    ∷ lasting_tables

pub restored-shape : map shape restored_tables ≡ map shape initial_tables
unfolding sort text_leb
restored-shape = refl

-- Those of the second are the models'.
pub lifecycle-shape : map shape lifecycle_tables ≡ map shape metadata
unfolding sort text_leb class_values
lifecycle-shape = refl

abbrev pub enum_names : List Text
enum_names =
    codes "base_g_node_class" ∷ codes "g_node_status" ∷ codes "connectivity_edge_status" ∷ []

abbrev pub empty_database : Database
empty_database = record { tables = []; enums = []; positions = []; carried = [] }

-- A database with its rows, at the first revision and at the second.
abbrev pub at_initial : List Text → List (Option Text) → Database
at_initial positions carried = record {
  tables = initial_tables;
  enums = enum_names;
  positions = positions;
  carried = carried;
}

abbrev pub at_lifecycle : List Text → List (Option Text) → Database
at_lifecycle positions carried = record (at_initial positions carried) { tables = lifecycle_tables }

pub upgraded_initial : migrate upgrade_initial empty_database ≡ some (at_initial [] [])
unfolding migrate upgrade_initial
upgraded_initial = refl

-- The first revision is taken back to no table, but the types of its enumerations stay, so it cannot
-- be made again.
abbrev pub taken_back : List Text → List (Option Text) → Database
taken_back positions carried = record (at_initial positions carried) { tables = [] }

pub downgrade_initial-enums :
    (positions : List Text) (carried : List (Option Text))
    → (migrate downgrade_initial (at_initial positions carried)
        ≡ some (taken_back positions carried))
      × (migrate upgrade_initial (taken_back positions carried) ≡ none)
unfolding migrate upgrade_initial downgrade_initial
downgrade_initial-enums positions carried = (refl, refl)
