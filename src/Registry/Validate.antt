-- ===== src/Registry/Validate.antt =====
-- src/gnr/db/validate.py: the whole-registry invariants. `alias` and `id` are unique columns, so the
-- dicts `nodes_by_alias` and `nodes_by_id` are the rows in order, and `.get` is a search.
pub mod Nodes
pub mod Edges
pub mod Classes
pub mod Spec
pub mod Hierarchy
use grid_node_registry.Prelude.{
  ℕ, Bool, true, false, not, ◌&&◌, ◌||◌, Option, none, some, List, [], ◌∷◌, ◌++◌, map, Text, codes,
  text_eq, option_eq, ◌==◌, contains, filter, find?, flat_map, if◌then◌else◌,
}
use grid_node_registry.Alias.{universe_of, parent_alias, is_forest_root}
use grid_node_registry.Sema.Enums.{
  BaseGNodeClass, GNodeStatus, active, logical, terminal_asset, leaf_transactive_node,
  connectivity_node, market_maker, class_eq, status_eq, class_value,
}
use grid_node_registry.Registry.Models.{GNodeSql, ConnectivityEdgeSql, PositionPointSql, Tables}
use grid_node_registry.Registry.Violations.{
  Violation, Invariant, Detail, parent_closed_active, universe_scope, active_position,
  edge_non_tree, class_hierarchy, no_parent, parent_not_active, in_universe, no_position,
  no_endpoint, endpoint_not_active, mirrors_tree_edge, cannot_be_root, wrong_parent,
}

-- nodes_by_alias.get(alias)
unfoldable pub get_by_alias : List GNodeSql → Text → Option GNodeSql
unfolding text_eq
get_by_alias nodes alias = find? (λ n. n.alias == alias) nodes

-- nodes_by_id.get(id)
unfoldable pub get_by_id : List GNodeSql → Text → Option GNodeSql
unfolding text_eq
get_by_id nodes id = find? (λ n. n.id == id) nodes

unfoldable pub is_active : GNodeStatus → Bool
unfolding status_eq
is_active s = s == active

abbrev node_violation : Invariant → GNodeSql → Detail → Violation
node_violation i node d = record {
  invariant = i;
  g_node_id = node.id;
  alias = node.alias;
  detail = d;
}

parent_violations : GNodeSql → Option GNodeSql → List Violation
parent_violations node none =
    node_violation parent_closed_active node (no_parent (parent_alias node.alias)) ∷ []
parent_violations node (some parent) =
    if not (is_active parent.status)
    then node_violation parent_closed_active node
        (parent_not_active (parent_alias node.alias) parent.status)
      ∷ []
    else []

-- One round of the loop of `check_parent_closed_active`, and so for the others.
pub parent_closed_at : List GNodeSql → GNodeSql → List Violation
unfolding parent_violations
parent_closed_at nodes node =
    if not (is_active node.status) || is_forest_root node.alias
    then []
    else parent_violations node (get_by_alias nodes (parent_alias node.alias))

unfoldable pub check_parent_closed_active : List GNodeSql → List Violation
unfolding parent_closed_at
check_parent_closed_active nodes = flat_map (parent_closed_at nodes) nodes

pub scope_at : Text → GNodeSql → List Violation
unfolding text_eq
scope_at universe node =
    if not (universe_of node.alias == universe)
    then node_violation universe_scope node (in_universe (universe_of node.alias) universe) ∷ []
    else []

unfoldable pub check_universe_scope : List GNodeSql → Text → List Violation
unfolding scope_at
check_universe_scope nodes universe = flat_map (scope_at universe) nodes

-- node.position_point_id is None or node.position_point_id not in position_ids
unfoldable pub lacks_position : Option Text → List Text → Bool
unfolding text_eq
lacks_position none ids = true
lacks_position (some id) ids = not (contains ids id)

pub position_at : List Text → GNodeSql → List Violation
unfolding class_eq
position_at position_ids node =
    if is_active node.status
      && not (node.base_class == logical)
      && lacks_position node.position_point_id position_ids
    then node_violation active_position node (no_position node.base_class node.position_point_id)
      ∷ []
    else []

unfoldable pub check_active_physical_have_position : List GNodeSql → List Text → List Violation
unfolding position_at
check_active_physical_have_position nodes position_ids = flat_map (position_at position_ids) nodes

abbrev edge_violation : ConnectivityEdgeSql → Text → Detail → Violation
edge_violation edge alias d = record {
  invariant = edge_non_tree;
  g_node_id = edge.id;
  alias = alias;
  detail = d;
}

endpoint_violations : ConnectivityEdgeSql → GNodeSql → List Violation
endpoint_violations edge node =
    if not (is_active node.status)
    then edge_violation edge node.alias (endpoint_not_active node.alias node.status) ∷ []
    else []

-- One edge mirrors a parent-child pair, in either direction.
unfoldable pub mirrors_tree : GNodeSql → GNodeSql → Bool
unfolding text_eq
mirrors_tree frm to = parent_alias to.alias == frm.alias || parent_alias frm.alias == to.alias

edge_violations : ConnectivityEdgeSql → Option GNodeSql → Option GNodeSql → List Violation
unfolding endpoint_violations
edge_violations edge none _ = edge_violation edge [] (no_endpoint edge.from_g_node_id) ∷ []
edge_violations edge (some _) none = edge_violation edge [] (no_endpoint edge.to_g_node_id) ∷ []
edge_violations edge (some frm) (some to) =
    endpoint_violations edge frm
    ++ (endpoint_violations edge to
        ++ (if mirrors_tree frm to
            then edge_violation edge to.alias (mirrors_tree_edge frm.alias to.alias) ∷ []
            else []))

pub edge_at : List GNodeSql → ConnectivityEdgeSql → List Violation
unfolding edge_violations
edge_at nodes edge =
    edge_violations edge (get_by_id nodes edge.from_g_node_id) (get_by_id nodes edge.to_g_node_id)

unfoldable pub check_edges_non_tree : List GNodeSql → List ConnectivityEdgeSql → List Violation
unfolding edge_at
check_edges_non_tree nodes active_edges = flat_map (edge_at nodes) active_edges

-- COPPER_CLASSES
unfoldable pub is_copper : BaseGNodeClass → Bool
unfolding class_eq
is_copper c = contains (connectivity_node ∷ market_maker ∷ []) c

unfoldable pub is_scada : GNodeSql → Bool
unfolding text_eq
is_scada node = node.g_node_class == codes "Scada"

root_is_legal : GNodeSql → Bool
unfolding class_eq is_copper is_scada
root_is_legal node =
    is_copper node.base_class || (node.base_class == logical && not (is_scada node))

-- What a node asks of its parent's class.
pub data Demand : Type 0 where
  copper : Text → Demand
  leaf : Text → Demand
  anything : Demand

unfoldable pub demand : GNodeSql → Demand
unfolding class_eq is_copper is_scada
demand node =
    if is_copper node.base_class || node.base_class == leaf_transactive_node
    then copper (class_value node.base_class)
    else if node.base_class == terminal_asset
    then leaf (class_value node.base_class)
    else if is_scada node
    then leaf (codes "Scada")
    else anything

abbrev wrong : GNodeSql → Text → GNodeSql → List Violation
wrong node kind parent =
    node_violation class_hierarchy node (wrong_parent kind parent.alias parent.base_class) ∷ []

class_violations : GNodeSql → Demand → Option GNodeSql → List Violation
unfolding class_eq is_copper
class_violations node d none = []
class_violations node (copper kind) (some parent) =
    if not (is_copper parent.base_class) then wrong node kind parent else []
class_violations node (leaf kind) (some parent) =
    if not (parent.base_class == leaf_transactive_node) then wrong node kind parent else []
class_violations node anything (some parent) = []

pub hierarchy_at : List GNodeSql → GNodeSql → List Violation
unfolding root_is_legal class_violations
hierarchy_at nodes node =
    if is_forest_root node.alias
    then (if not (root_is_legal node)
        then node_violation class_hierarchy node (cannot_be_root node.g_node_class) ∷ []
        else [])
    else class_violations node (demand node) (get_by_alias nodes (parent_alias node.alias))

unfoldable pub check_class_hierarchy : List GNodeSql → List Violation
unfolding hierarchy_at
check_class_hierarchy nodes = flat_map (hierarchy_at nodes) nodes

unfoldable pub active_edges_of : List ConnectivityEdgeSql → List ConnectivityEdgeSql
active_edges_of = filter (λ e. is_active e.status)

unfoldable pub validate_registry : Tables → Text → List Violation
validate_registry t universe =
    check_universe_scope t.g_nodes universe
    ++ (check_parent_closed_active t.g_nodes
        ++ (check_edges_non_tree t.g_nodes (active_edges_of t.connectivity_edges)
            ++ (check_class_hierarchy t.g_nodes
                ++ check_active_physical_have_position t.g_nodes
                    (map (λ p. p.id) t.position_points))))
