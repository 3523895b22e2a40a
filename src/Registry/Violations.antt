-- ===== src/Registry/Violations.antt =====
-- `Violation` of src/gnr/db/validate.py. `detail` has a constructor for each message text, with the
-- values that the text shows.
use grid_node_registry.Prelude.{Option, Text}
use grid_node_registry.Sema.Enums.{BaseGNodeClass, GNodeStatus}

pub data Invariant : Type 0 where
  parent_closed_active universe_scope active_position edge_non_tree class_hierarchy : Invariant

pub data Detail : Type 0 where
  no_parent : Text → Detail
  parent_not_active : Text → GNodeStatus → Detail
  in_universe : Text → Text → Detail
  no_position : BaseGNodeClass → Option Text → Detail
  no_endpoint : Text → Detail
  endpoint_not_active : Text → GNodeStatus → Detail
  mirrors_tree_edge : Text → Text → Detail
  cannot_be_root : Text → Detail
  wrong_parent : Text → Text → BaseGNodeClass → Detail

pub record Violation : Type 0 where
  pub invariant : Invariant
  pub g_node_id : Text
  pub alias : Text
  pub detail : Detail
