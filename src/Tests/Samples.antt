-- ===== src/Tests/Samples.antt =====
-- A stand-in for what the registry calls, and a small clean registry of the universe `d1`.
use grid_node_registry.Prelude.{Option, none, some, [], ◌∷◌, ◌++◌, Text, codes, text_leb}
use grid_node_registry.Sema.Enums.{
  BaseGNodeClass, GNodeStatus, pending, active, market_maker, connectivity_node, terminal_asset,
  leaf_transactive_node,
}
use grid_node_registry.Sema.GNode.{GNodeGt}
use grid_node_registry.Sema.Messages.{GNodeCreateCmd, GNodeReparentCmd}
use grid_node_registry.Registry.Models.{Tables, GNodeSql, PositionPointSql, AliasAssignmentSql}
use grid_node_registry.Authority.{World, Config}

-- The digest of a text is the text.
abbrev pub world : World
world = record {
  sha256_hex = λ b. b;
  encode = λ s. s;
  decode = λ b. b;
  create_bytes = λ cmd. cmd.new_node.alias ++ cmd.new_node.g_node_id;
  reparent_bytes = λ cmd. codes "reparent" ++ cmd.new_node.alias;
  collate = text_leb;
  send_time_ms = 1700000000000;
}

abbrev pub config : Config
config = record { universe = codes "d1"; write_proof_sha256 = none }

abbrev pub gated : Config
gated = record { universe = codes "d1"; write_proof_sha256 = some (codes "secret") }

abbrev pub id_isone : Text
id_isone = codes "00000000-0000-4000-8000-000000000001"

abbrev pub id_keene : Text
id_keene = codes "00000000-0000-4000-8000-000000000002"

abbrev pub id_beech : Text
id_beech = codes "00000000-0000-4000-8000-000000000003"

abbrev pub id_n : Text
id_n = codes "00000000-0000-4000-8000-000000000004"

abbrev pub id_ta : Text
id_ta = codes "00000000-0000-4000-8000-000000000005"

abbrev pub point_1 : Text
point_1 = codes "00000000-0000-4000-8000-00000000000a"

abbrev pub point_2 : Text
point_2 = codes "00000000-0000-4000-8000-00000000000b"

abbrev pub point_3 : Text
point_3 = codes "00000000-0000-4000-8000-00000000000c"

abbrev pub node_row : Text → Text → BaseGNodeClass → Text → GNodeStatus → Option Text → GNodeSql
node_row id alias base class status point = record {
  id = id;
  alias = alias;
  prev_alias = none;
  base_class = base;
  g_node_class = class;
  status = status;
  position_point_id = point;
  display_name = none;
}

abbrev pub node_gt : Text → Text → BaseGNodeClass → Text → GNodeStatus → Option Text → GNodeGt
node_gt id alias base class status point = record {
  g_node_id = id;
  alias = alias;
  base_class = base;
  g_node_class = class;
  status = status;
  prev_alias = none;
  position_point_id = point;
  display_name = none;
}

abbrev point_row : Text → PositionPointSql
point_row id = record { id = id; ciphertext = none; key_id = none; alg = none }

abbrev claim_row : Text → Text → AliasAssignmentSql
claim_row alias id = record { alias = alias; g_node_id = id }

abbrev pub isone : GNodeSql
isone =
    node_row id_isone (codes "d1.isone") market_maker (codes "MarketMaker") active (some point_1)

abbrev pub keene : GNodeSql
keene =
    node_row id_keene (codes "d1.isone.keene") connectivity_node (codes "ConnectivityNode") active
      (some point_2)

abbrev pub beech : GNodeSql
beech =
    node_row id_beech (codes "d1.isone.keene.beech") leaf_transactive_node
      (codes "LeafTransactiveNode") active (some point_3)

abbrev pub tables : Tables
tables = record {
  position_points = point_row point_1 ∷ point_row point_2 ∷ point_row point_3 ∷ [];
  g_nodes = isone ∷ keene ∷ beech ∷ [];
  connectivity_edges = [];
  alias_assignment =
      claim_row isone.alias id_isone
      ∷ claim_row keene.alias id_keene
      ∷ claim_row beech.alias id_beech
      ∷ [];
  command_log = [];
}

-- A pending TerminalAsset behind `beech`.
abbrev pub create_ta : GNodeCreateCmd
create_ta = record {
  new_node =
      node_gt id_ta (codes "d1.isone.keene.beech.ta") terminal_asset (codes "TerminalAsset") pending
        none;
  proof = none;
}

-- A new connectivity node between `keene` and `beech`, at the registered point of `beech`.
abbrev pub insert_n : GNodeReparentCmd
insert_n = record {
  new_node =
      node_gt id_n (codes "d1.isone.keene.n") connectivity_node (codes "ConnectivityNode") active
        (some point_3);
  moved_child_g_node_ids = id_beech ∷ [];
  proof = none;
}

-- The id of `create_ta` under another alias.
abbrev pub create_again : GNodeCreateCmd
create_again = record {
  new_node =
      node_gt id_ta (codes "d1.isone.keene.other.ta") terminal_asset (codes "TerminalAsset") pending
        none;
  proof = none;
}

-- `beech` under the new node.
abbrev pub moved_beech : GNodeGt
moved_beech = record {
  g_node_id = id_beech;
  alias = codes "d1.isone.keene.n.beech";
  base_class = leaf_transactive_node;
  g_node_class = codes "LeafTransactiveNode";
  status = active;
  prev_alias = some beech.alias;
  position_point_id = some point_3;
  display_name = none;
}
