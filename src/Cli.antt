-- ===== src/Cli.antt =====
-- src/gnr/cli.py: what the console commands decide. Their prompts, prints and connections are I/O;
-- an exit with a message is a value.
pub mod Rebuilding
pub mod Creation
pub mod Seed
pub mod Operator
pub mod Wizard
use grid_node_registry.Prelude.{
  ℕ, Bool, true, false, not, ◌&&◌, Option, none, some, List, [], ◌∷◌, ◌++◌, map, Text, codes,
  text_eq, nat_eq, ◌==◌, length, filter, find?, if◌then◌else◌,
}
use grid_node_registry.Text.{starts_with}
use grid_node_registry.Sema.Enums.{
  BaseGNodeClass, terminal_asset, leaf_transactive_node, connectivity_node, market_maker, logical,
  class_eq, class_value, classes, pending,
}
use grid_node_registry.Sema.GNode.{GNodeGt}
use grid_node_registry.Registry.Models.{Tables, empty_tables}
use grid_node_registry.Registry.Violations.{Violation}
use grid_node_registry.Registry.Validate.{validate_registry}
use grid_node_registry.Registry.Session.{Session, pure, gets, modify, ◌>>=◌, ◌>>◌}
use grid_node_registry.Authority.{World}
use grid_node_registry.DisplayName.{default_display_name}
use grid_node_registry.DevUniverse.{seed_dev_universe}
use grid_node_registry.Rebuild.{ObjectStore, RebuildReport, is_ok}
use grid_node_registry.Rebuild.Replay.{Payload, rebuild}

-- ---- gnr rebuild

pub data RebuildExit : Type 0 where
  occupied : ℕ → RebuildExit
  finished : RebuildReport → List Violation → (success : Bool) → RebuildExit

-- `s.query(table).delete()` of each of the five tables
unfoldable pub wipe : Tables → Tables
wipe t = record t {
  connectivity_edges = [];
  alias_assignment = [];
  g_nodes = [];
  position_points = [];
  command_log = [];
}

abbrev no_violation : List Violation → Bool
no_violation [] = true
no_violation (v ∷ vs) = false

module _ (w : World) (clock : ℕ → ℕ) (decode : List ℕ → Payload) (universe : Text)
    (store : ObjectStore) where
  unfoldable pub rebuild_and_audit : Session RebuildExit
  rebuild_and_audit = do
    report ← rebuild w clock decode universe store
    violations ← gets (λ t. validate_registry t universe)
    pure (finished report violations (is_ok report && no_violation violations))

  unfoldable pub rebuild_unless_occupied : (wipe_first : Bool) → ℕ → Session RebuildExit
  unfolding nat_eq wipe
  rebuild_unless_occupied wipe_first count =
      if not (count == 0) && not wipe_first
      then pure (occupied count)
      else do if wipe_first then modify wipe else pure tt; rebuild_and_audit

  unfoldable pub run_rebuild : (wipe_first : Bool) → Session RebuildExit
  run_rebuild wipe_first = do rebuild_unless_occupied wipe_first (← gets (λ t. length t.g_nodes))

-- ---- gnr create

-- _PHYSICAL, by its members
abbrev pub physical : List BaseGNodeClass
unfolding class_eq
physical = filter (λ c. not (c == logical)) classes

abbrev base_or_logical : Option BaseGNodeClass → BaseGNodeClass
base_or_logical none = logical
base_or_logical (some c) = c

unfoldable pub infer_base : Text → BaseGNodeClass
unfolding text_eq class_value class_eq
infer_base g_node_class = base_or_logical (find? (λ c. class_value c == g_node_class) physical)

-- The arguments of `gnr create`; those that are left out are empty or `none`.
pub record CreateArgs : Type 0 where
  pub alias : Text
  pub g_node_class : Text
  pub g_node_id : Option Text
  pub display_name : Option Text

abbrev or_else : Option Text → Text → Text
or_else none default = default
or_else (some []) default = default
or_else (some (c ∷ s)) default = c ∷ s

-- answer or default
abbrev pub answer_or : Text → Text → Text
answer_or [] default = default
answer_or (c ∷ s) default = c ∷ s

-- args.g_node_class or base_class.value
unfoldable pub class_of : Text → Text
unfolding infer_base
class_of g_node_class = answer_or g_node_class (class_value (infer_base g_node_class))

-- The node that `_run_create` builds, where `fresh_id` is a new uuid4.
unfoldable pub created_node : Text → CreateArgs → GNodeGt
created_node fresh_id args = record {
  g_node_id = or_else args.g_node_id fresh_id;
  alias = args.alias;
  base_class = infer_base args.g_node_class;
  g_node_class = class_of args.g_node_class;
  status = pending;
  prev_alias = none;
  position_point_id = none;
  display_name =
      some
        (or_else args.display_name (default_display_name args.alias (class_of args.g_node_class)));
}

-- ---- gnr seed-dev

pub data SeedExit : Type 0 where
  foreign_nodes : List Text → SeedExit
  not_empty : ℕ → SeedExit
  seeded : List GNodeGt → SeedExit

abbrev pub is_foreign : Text → Bool
is_foreign alias = not (starts_with alias (codes "d1."))

-- The exit that the nodes at hand call for, if any.
unfoldable pub refusal : (wipe_first : Bool) → (aliases foreign : List Text) → Option SeedExit
unfolding nat_eq
refusal wipe_first aliases (alias ∷ rest) = some (foreign_nodes (alias ∷ rest))
refusal wipe_first aliases [] =
    if not (length aliases == 0) && not wipe_first then some (not_empty (length aliases)) else none

unfoldable pub seed_refusal : (wipe_first : Bool) → List Text → Option SeedExit
unfolding refusal
seed_refusal wipe_first aliases = refusal wipe_first aliases (filter is_foreign aliases)

abbrev pub seed_unless_refused :
    (Text → Text) → (wipe_first : Bool) → Option SeedExit → Session SeedExit
seed_unless_refused uuid wipe_first (some e) = pure e
seed_unless_refused uuid wipe_first none = do
  gnodes ← seed_dev_universe uuid wipe_first
  pure (seeded gnodes)

unfoldable pub run_seed_dev : (Text → Text) → (wipe_first : Bool) → Session SeedExit
unfolding seed_refusal
run_seed_dev uuid wipe_first = do
  aliases ← gets (λ t. map (λ n. n.alias) t.g_nodes)
  seed_unless_refused uuid wipe_first (seed_refusal wipe_first aliases)
