-- ===== src/Authority/Growth.antt =====
-- The mutations of src/gnr/db/authority.py, statement by statement: how they change the tables.
use grid_node_registry.Prelude.{
  ℕ, refl, Bool, true, false, Option, none, some, List, [], ◌∷◌, map, Text, text_eq, In-map, arith,
  if◌then◌else◌,
}
use grid_node_registry.Sema.GNode.{GNodeGt, Invalid}
use grid_node_registry.Sema.Messages.{GNodeCreateCmd, GNodeReparentCmd, ConnectivityEdgeGt}
use grid_node_registry.Registry.Models.{
  Tables, GNodeSql, ConnectivityEdgeSql, AliasAssignmentSql, CommandLogSql,
}
use grid_node_registry.Registry.Violations.{Violation}
use grid_node_registry.Registry.Session.{Session, Refusal, Error}
use grid_node_registry.Registry.Growth.{
  Grows, SameNode, Growing, Growing-modify, growing_rules, Growing-bind, Growing-pure,
  Growing-add_node, Growing-add_command, Growing-claim_alias,
}
use grid_node_registry.Authority.{
  World, Config, validated, to_gt, to_gts, edges_to_gts, new_forest, get_forest, check_proof,
}
use grid_node_registry.Authority.Create.{
  check_claim, check_parent_row, check_parent, refuse_violations, row_to_gt, create_guards,
  create_writes, create_unless_logged, apply_create,
}
use grid_node_registry.Authority.Reparent.{
  Claims, require_child, intend, refuse_collisions, rename_row, rename, rewrite_rows,
  rewrite_prefix, move_children, require_parent, reparent_guards, reparent_writes,
  reparent_unless_logged, apply_reparent,
}

validated-Growing : {A : Type 0} (a : A) (e : Option Invalid) → Growing (validated a e)
unfolding validated
validated-Growing a none = search growing_rules
validated-Growing a (some e) = search growing_rules

to_gt-Growing : (row : GNodeSql) → Growing (to_gt row)
unfolding to_gt
to_gt-Growing row = validated-Growing _ _

to_gts-Growing : (rows : List GNodeSql) → Growing (to_gts rows)
unfolding to_gts
to_gts-Growing [] = search growing_rules
to_gts-Growing (row ∷ rows) =
    Growing-bind _ _ (to_gt-Growing row)
      λ gt. Growing-bind _ _ (to_gts-Growing rows) λ gts. Growing-pure _

edges_to_gts-Growing : (rows : List ConnectivityEdgeSql) → Growing (edges_to_gts rows)
unfolding edges_to_gts
edges_to_gts-Growing [] = search growing_rules
edges_to_gts-Growing (row ∷ rows) =
    Growing-bind _ _ (validated-Growing _ _)
      λ gt. Growing-bind _ _ (edges_to_gts-Growing rows) λ gts. Growing-pure _

new_forest-Growing :
    (roots : List Text) (nodes : List GNodeGt) (edges : List ConnectivityEdgeGt) (time : ℕ)
    → Growing (new_forest roots nodes edges time)
unfolding new_forest
new_forest-Growing roots nodes edges time = validated-Growing _ _

ruleset read_rules =
    (growing_rules, to_gt-Growing, to_gts-Growing, edges_to_gts-Growing, new_forest-Growing)

pub get_forest-Growing : (w : World) (roots : List Text) → Growing (get_forest w roots)
unfolding get_forest
get_forest-Growing w roots = search read_rules depth 7

check_proof-Growing :
    (w : World) (c : Config) (proof : Option Text) (error : Refusal → Error)
    → Growing (check_proof w c proof error)
unfolding check_proof
check_proof-Growing w c proof error = search growing_rules

check_claim-Growing :
    (node : GNodeGt) (o : Option AliasAssignmentSql) → Growing (check_claim node o)
unfolding check_claim
check_claim-Growing node none = search growing_rules
check_claim-Growing node (some c) = search growing_rules

check_parent_row-Growing :
    (node : GNodeGt) (o : Option GNodeSql) → Growing (check_parent_row node o)
unfolding check_parent_row
check_parent_row-Growing node none = search growing_rules
check_parent_row-Growing node (some p) = search growing_rules

if-Growing :
    {A : Type 0} (b : Bool) (m n : Session A) → Growing m → Growing n → Growing (if b then m else n)
if-Growing true m n g h = g
if-Growing false m n g h = h

check_parent-Growing : (node : GNodeGt) → Growing (check_parent node)
unfolding check_parent
check_parent-Growing node = search (growing_rules, if-Growing, check_parent_row-Growing)

refuse_violations-Growing :
    (error : Refusal → Error) (vs : List Violation) → Growing (refuse_violations error vs)
unfolding refuse_violations
refuse_violations-Growing error [] = search growing_rules
refuse_violations-Growing error (v ∷ vs) = search growing_rules

row_to_gt-Growing : (o : Option GNodeSql) → Growing (row_to_gt o)
unfolding row_to_gt
row_to_gt-Growing none = search growing_rules
row_to_gt-Growing (some row) = to_gt-Growing row

ruleset write_rules = (
  read_rules, refuse_violations-Growing, Growing-add_node, Growing-add_command, Growing-claim_alias,
)

module _ (w : World) (c : Config) where
  create_guards-Growing : (node : GNodeGt) → Growing (create_guards w c node)
  unfolding create_guards
  create_guards-Growing node =
      search (growing_rules, check_claim-Growing, check_parent-Growing) depth 8

  create_writes-Growing : (cmd : GNodeCreateCmd) → Growing (create_writes w c cmd)
  unfolding create_writes
  create_writes-Growing cmd = search (write_rules, row_to_gt-Growing) depth 9

  create_unless_logged-Growing :
      (cmd : GNodeCreateCmd) (o : Option CommandLogSql) → Growing (create_unless_logged w c cmd o)
  unfolding create_unless_logged
  create_unless_logged-Growing cmd none =
      search (growing_rules, create_guards-Growing, create_writes-Growing)
  create_unless_logged-Growing cmd (some l) = get_forest-Growing w _

  -- Whether a create command succeeds or raises, claims and logged commands stay, edges and
  -- positions do not change, and every node stays and keeps its id, class, status, position and name.
  pub apply_create-Growing : (cmd : GNodeCreateCmd) → Growing (apply_create w c cmd)
  unfolding apply_create
  apply_create-Growing cmd =
      search (growing_rules, check_proof-Growing, create_unless_logged-Growing) depth 7

require_child-Growing : (id : Text) (o : Option GNodeSql) → Growing (require_child id o)
unfolding require_child
require_child-Growing id none = search growing_rules
require_child-Growing id (some n) = search growing_rules

intend-Growing : (alias : Text) (ids : List Text) (d : Claims) → Growing (intend alias ids d)
unfolding intend
intend-Growing alias [] d = search growing_rules
intend-Growing alias (id ∷ ids) d =
    search (growing_rules, require_child-Growing, λ (e : Claims). intend-Growing alias ids e) depth
      8

refuse_collisions-Growing : (xs : List (Text × Text)) → Growing (refuse_collisions xs)
unfolding refuse_collisions
refuse_collisions-Growing [] = search growing_rules
refuse_collisions-Growing (x ∷ xs) = search growing_rules

rename_row-SameNode : (id alias : Text) (n : GNodeSql) → SameNode n (rename_row id alias n)
unfolding rename_row
rename_row-SameNode id alias n = record {
  id = ground arith;
  base_class = ground arith;
  g_node_class = ground arith;
  status = ground arith;
  position_point_id = ground arith;
  display_name = ground arith;
}

map_rename :
    (id alias : Text) (t : Tables)
    → Grows t (record t { g_nodes = map (rename_row id alias) t.g_nodes })
map_rename id alias t = record {
  claims = λ c i. i;
  commands = λ c i. i;
  edges = refl;
  points = refl;
  nodes = λ n i. (
    rename_row id alias n,
    In-map (rename_row id alias) n t.g_nodes i,
    rename_row-SameNode id alias n,
  );
}

rename-Growing : (id alias : Text) → Growing (rename id alias)
unfolding rename
rename-Growing id alias = search (growing_rules, Growing-modify, map_rename) depth 7

rewrite_rows-Growing :
    (p q : Text) (rows : List GNodeSql) (updated : List Text)
    → Growing (rewrite_rows p q rows updated)
unfolding rewrite_rows
rewrite_rows-Growing p q [] updated = search growing_rules
rewrite_rows-Growing p q (row ∷ rows) updated =
    search (growing_rules, rename-Growing, Growing-claim_alias, rewrite_rows-Growing p q rows _)
      depth 7

rewrite_prefix-Growing : (p q : Text) (updated : List Text) → Growing (rewrite_prefix p q updated)
unfolding rewrite_prefix
rewrite_prefix-Growing p q updated = search (growing_rules, rewrite_rows-Growing)

move_children-Growing :
    (alias : Text) (ids updated : List Text) → Growing (move_children alias ids updated)
unfolding move_children
move_children-Growing alias [] updated = search growing_rules
move_children-Growing alias (id ∷ ids) updated =
    search
      (
        growing_rules,
        require_child-Growing,
        rewrite_prefix-Growing,
        λ (u : List Text). move_children-Growing alias ids u,
      )
      depth 8

require_parent-Growing : (n : GNodeGt) (o : Option GNodeSql) → Growing (require_parent n o)
unfolding require_parent
require_parent-Growing n none = search growing_rules
require_parent-Growing n (some p) = search growing_rules

module _ (w : World) (c : Config) where
  reparent_guards-Growing : (cmd : GNodeReparentCmd) → Growing (reparent_guards w c cmd)
  unfolding reparent_guards
  reparent_guards-Growing cmd =
      search (growing_rules, require_parent-Growing, intend-Growing, refuse_collisions-Growing)
        depth 9

  reparent_writes-Growing : (cmd : GNodeReparentCmd) → Growing (reparent_writes w c cmd)
  unfolding reparent_writes
  reparent_writes-Growing cmd = search (write_rules, move_children-Growing) depth 14

  reparent_unless_logged-Growing :
      (cmd : GNodeReparentCmd) (o : Option CommandLogSql)
      → Growing (reparent_unless_logged w c cmd o)
  unfolding reparent_unless_logged
  reparent_unless_logged-Growing cmd none =
      search (growing_rules, reparent_guards-Growing, reparent_writes-Growing)
  reparent_unless_logged-Growing cmd (some l) = get_forest-Growing w _

  -- The same of a re-parent command, which renames nodes and changes nothing else of them.
  pub apply_reparent-Growing : (cmd : GNodeReparentCmd) → Growing (apply_reparent w c cmd)
  unfolding apply_reparent
  apply_reparent-Growing cmd =
      search (growing_rules, check_proof-Growing, reparent_unless_logged-Growing) depth 7
