-- ===== src/Sema/Runtime.antt =====
-- `default_codec` of src/gnr/sema/codec.py: the classes that src/gnr/sema/types exports, of which none has
-- an old version and none overrides `upgrade`. `str.isalpha` and `int` are parameters.
pub mod Closed
pub mod Constants
use grid_node_registry.Prelude.{ℕ, Bool, Option, none, some, List, [], ◌∷◌, map, Text, codes}
use grid_node_registry.Sema.Casing.{Json, Fields, snake_to_pascal}
use grid_node_registry.Sema.Codec.{SemaClass, Upgraded, not_upgraded, Vocabulary}
use grid_node_registry.Sema.Codec.Discovery.{Classes, get_current_types, get_old_versions}
use grid_node_registry.Sema.Fields.{◌>>=◌}
use grid_node_registry.Sema.Wire.{
  Message, connectivity_edge_gt, g_node_cmd_ack, g_node_cmd_nack, g_node_create_cmd, g_node_forest,
  g_node_forest_request, g_node_gt, g_node_reparent_cmd, position_point_gt,
}
use grid_node_registry.Sema.Wire.Parse.{
  as_dict, node_of, edge_of, create_of, reparent_of, forest_of, request_of, point_of, ack_of,
  nack_of,
}

-- A class with its fields, in snake case.
abbrev pub sema_class :
    {A : Type 0}
    → (version : Text) → (Fields → Option A)
    → (A → Message)
    → List Text
    → SemaClass Message
sema_class version parse message names = record {
  version_value = some version;
  model_validate = λ d. as_dict parse d >>= λ a. some (message a);
  model_fields =
      map (λ name. (name, some (snake_to_pascal name)))
        (codes "type_name" ∷ codes "version" ∷ names);
}

-- The fields of the types.
abbrev pub edge_names : List Text
edge_names = codes "id" ∷ codes "from_g_node_id" ∷ codes "to_g_node_id" ∷ codes "status" ∷ []

abbrev pub ack_names : List Text
ack_names = codes "command_hash" ∷ []

abbrev pub nack_names : List Text
nack_names = codes "command_hash" ∷ codes "reason" ∷ []

abbrev pub create_names : List Text
create_names = codes "new_node" ∷ codes "proof" ∷ []

abbrev pub forest_names : List Text
forest_names =
    codes "roots" ∷ codes "nodes" ∷ codes "edges" ∷ codes "send_time_ms" ∷ codes "proof" ∷ []

abbrev pub request_names : List Text
request_names = codes "roots" ∷ codes "request_id" ∷ []

abbrev pub node_names : List Text
node_names =
    codes "g_node_id"
    ∷ codes "alias"
    ∷ codes "base_class"
    ∷ codes "g_node_class"
    ∷ codes "status"
    ∷ codes "prev_alias"
    ∷ codes "position_point_id"
    ∷ codes "display_name"
    ∷ []

abbrev pub reparent_names : List Text
reparent_names = codes "new_node" ∷ codes "moved_child_g_node_ids" ∷ codes "proof" ∷ []

abbrev pub point_names : List Text
point_names = codes "id" ∷ codes "latitude_micro_deg" ∷ codes "longitude_micro_deg" ∷ []

-- types.__all__
unfoldable pub exported_types : Classes Message
unfolding edge_of ack_of nack_of create_of forest_of request_of node_of reparent_of point_of
    snake_to_pascal
exported_types =
    (codes "connectivity.edge.gt", sema_class (codes "000") edge_of connectivity_edge_gt edge_names)
    ∷ (codes "g.node.cmd.ack", sema_class (codes "000") ack_of g_node_cmd_ack ack_names)
    ∷ (codes "g.node.cmd.nack", sema_class (codes "000") nack_of g_node_cmd_nack nack_names)
    ∷ (codes "g.node.create.cmd", sema_class (codes "001") create_of g_node_create_cmd create_names)
    ∷ (codes "g.node.forest", sema_class (codes "002") forest_of g_node_forest forest_names)
    ∷ (
      codes "g.node.forest.request",
      sema_class (codes "000") request_of g_node_forest_request request_names,
    )
    ∷ (codes "g.node.gt", sema_class (codes "006") node_of g_node_gt node_names)
    ∷ (
      codes "g.node.reparent.cmd",
      sema_class (codes "002") reparent_of g_node_reparent_cmd reparent_names,
    )
    ∷ (codes "position.point.gt", sema_class (codes "000") point_of position_point_gt point_names)
    ∷ []

-- types/old_versions
unfoldable pub exported_old_versions : Classes Message
exported_old_versions = []

unfoldable pub type_name_of : Message → Text
type_name_of (connectivity_edge_gt e) = codes "connectivity.edge.gt"
type_name_of (g_node_cmd_ack a) = codes "g.node.cmd.ack"
type_name_of (g_node_cmd_nack a) = codes "g.node.cmd.nack"
type_name_of (g_node_create_cmd cmd) = codes "g.node.create.cmd"
type_name_of (g_node_forest f) = codes "g.node.forest"
type_name_of (g_node_forest_request r) = codes "g.node.forest.request"
type_name_of (g_node_gt n) = codes "g.node.gt"
type_name_of (g_node_reparent_cmd cmd) = codes "g.node.reparent.cmd"
type_name_of (position_point_gt p) = codes "position.point.gt"

unfoldable pub version_of : Message → Text
version_of (g_node_create_cmd cmd) = codes "001"
version_of (g_node_forest f) = codes "002"
version_of (g_node_gt n) = codes "006"
version_of (g_node_reparent_cmd cmd) = codes "002"
version_of _ = codes "000"

unfoldable pub default_codec : (is_alpha : ℕ → Bool) → (int : Text → Option ℕ) → Vocabulary Message
unfolding get_current_types get_old_versions exported_types exported_old_versions type_name_of
    version_of
default_codec is_alpha int = record {
  is_alpha = is_alpha;
  int = int;
  registry = get_current_types exported_types;
  old_versions = get_old_versions exported_old_versions;
  type_name_of = type_name_of;
  version_of = λ m. some (version_of m);
  upgrade = λ m. not_upgraded;
}
