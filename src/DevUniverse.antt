-- ===== src/DevUniverse.antt =====
-- src/gnr/dev_universe.py: the development universe `d1`. `uuid` is `deterministic_uuid4`, and the row of
-- a position holds its id only.
pub mod Seeding
pub mod Points
pub mod Clean
pub mod Run
use grid_node_registry.Prelude.{
  ℕ, Bool, true, false, not, ◌&&◌, Option, none, some, List, [], ◌∷◌, ◌++◌, map, flat_map, Text,
  codes, text_eq, option_eq, ◌==◌, any, contains, sort, text_leb, if◌then◌else◌,
}
use grid_node_registry.Text.{starts_with}
use grid_node_registry.Sema.Enums.{
  BaseGNodeClass, market_maker, connectivity_node, leaf_transactive_node, terminal_asset, logical,
  class_eq, pending, active,
}
use grid_node_registry.Sema.GNode.{GNodeGt}
use grid_node_registry.Registry.Models.{Tables, PositionPointSql, row_of_gt}
use grid_node_registry.Registry.Session.{
  Session, integrity_error, position_points_pkey, pure, gets, raise_if, modify, ◌>>=◌, ◌>>◌,
  add_node,
}
use grid_node_registry.Registry.Ledger.{claim_alias}
use grid_node_registry.DisplayName.{default_display_name}

abbrev pub dev_universe : Text
dev_universe = codes "d1"

abbrev pub keene : Text
keene = codes "d1.isone.me.versant.keene"

-- _HOMES
abbrev pub homes : List Text
homes =
    codes "beech"
    ∷ codes "elm"
    ∷ codes "fir"
    ∷ codes "maple"
    ∷ codes "oak"
    ∷ codes "spruce"
    ∷ codes "willow"
    ∷ []

-- PENDING_HOME
abbrev pub pending_home : Text
pending_home = keene ++ codes ".willow"

-- An item of the map of aliases.
pub record DevSpec : Type 0 where
  pub alias : Text
  pub base_class : BaseGNodeClass
  pub g_node_class : Text

abbrev spec : Text → BaseGNodeClass → Text → DevSpec
spec alias base_class g_node_class = record {
  alias = alias;
  base_class = base_class;
  g_node_class = g_node_class;
}

abbrev home_specs : Text → List DevSpec
home_specs home =
    spec (keene ++ codes "." ++ home) leaf_transactive_node (codes "LeafTransactiveNode")
    ∷ spec (keene ++ codes "." ++ home ++ codes ".ta") terminal_asset (codes "TerminalAsset")
    ∷ spec (keene ++ codes "." ++ home ++ codes ".scada") logical (codes "Scada")
    ∷ []

abbrev pub dev_universe_specs : List DevSpec
dev_universe_specs =
    spec (codes "d1.isone") market_maker (codes "MarketMaker")
    ∷ spec (codes "d1.isone.me") connectivity_node (codes "ConnectivityNode")
    ∷ spec (codes "d1.isone.me.versant") connectivity_node (codes "ConnectivityNode")
    ∷ spec keene market_maker (codes "MarketMaker")
    ∷ spec (codes "d1.time") logical (codes "TimeCoordinator")
    ∷ spec (codes "d1.flo") logical (codes "Flo")
    ∷ spec (codes "d1.isone.me.weather") logical (codes "WeatherForecastService")
    ∷ spec (codes "d1.isone.me.price") logical (codes "PriceForecastService")
    ∷ flat_map home_specs homes

module _ (uuid : Text → Text) where
  unfoldable pub dev_position_id_for : Text → Text
  dev_position_id_for alias = uuid (codes "gnr-det-id/dev-universe-position/" ++ alias)

  unfoldable pub dev_g_node_id_for : Text → Text
  dev_g_node_id_for alias = uuid (codes "gnr-det-id/dev-universe-gnode/" ++ alias)

  unfoldable pub dev_node : DevSpec → GNodeGt
  unfolding dev_position_id_for dev_g_node_id_for class_eq starts_with default_display_name
  dev_node s =
      let physical = not (s.base_class == logical) in
      let is_pending = starts_with s.alias pending_home in
      record {
        g_node_id = dev_g_node_id_for s.alias;
        alias = s.alias;
        base_class = s.base_class;
        g_node_class = s.g_node_class;
        status = if is_pending then pending else active;
        prev_alias = none;
        position_point_id =
            if physical && not is_pending then some (dev_position_id_for s.alias) else none;
        display_name = some (default_display_name s.alias s.g_node_class);
      }

  unfoldable pub build_dev_universe : List GNodeGt
  unfolding dev_node
  build_dev_universe = map dev_node dev_universe_specs

  -- DEV_POSITION_ID
  unfoldable pub dev_position_id : Text
  dev_position_id = dev_position_id_for (codes "d1.atlantis-canonical")

  -- set.update with the positions of the nodes
  unfoldable pub add_positions : List GNodeGt → List Text → List Text
  unfolding text_eq
  add_positions [] ids = ids
  add_positions (g ∷ gs) ids = elim g.position_point_id [
    | none ↦ add_positions gs ids
    | some id ↦ add_positions gs (if contains ids id then ids else ids ++ id ∷ [])
  ]

abbrev pub point_row : Text → PositionPointSql
point_row id = record { id = id; ciphertext = none; key_id = none; alg = none }

-- The four tables that a reset empties.
unfoldable pub reset_tables : Tables → Tables
reset_tables t = record t {
  connectivity_edges = [];
  alias_assignment = [];
  g_nodes = [];
  position_points = [];
}

-- s.add(row) for a position, as the flush that follows lands it
unfoldable pub add_point : PositionPointSql → Session (Unit {0})
unfolding text_eq
add_point row = do
  raise_if (← gets (λ t. any (λ p. p.id == row.id) t.position_points))
      (integrity_error position_points_pkey)
  modify (λ t. record t { position_points = t.position_points ++ row ∷ [] })

unfoldable pub add_points : List Text → Session (Unit {0})
add_points [] = pure tt
add_points (id ∷ ids) = do add_point (point_row id); add_points ids

unfoldable pub add_nodes : List GNodeGt → Session (Unit {0})
add_nodes [] = pure tt
add_nodes (g ∷ gs) = do add_node (row_of_gt g); add_nodes gs

unfoldable pub claim_aliases : List GNodeGt → Session (Unit {0})
claim_aliases [] = pure tt
claim_aliases (g ∷ gs) = do claim_alias g.alias g.g_node_id; claim_aliases gs

unfoldable pub seed_dev_universe : (Text → Text) → (reset : Bool) → Session (List GNodeGt)
unfolding add_positions sort text_leb reset_tables
seed_dev_universe uuid reset = do
  if reset then modify reset_tables else pure tt
  let gnodes = build_dev_universe uuid
  add_points (sort text_leb (add_positions uuid gnodes (dev_position_id uuid ∷ [])))
  add_nodes gnodes
  claim_aliases gnodes
  pure gnodes
