-- ===== src/Tests/Runs.antt =====
-- Runs of the commands on the sample registry.
use grid_node_registry.Prelude.{none, ◌≡◌, refl, [], ◌∷◌, map, codes, text_eq, option_eq, nat_eq}
use grid_node_registry.Text.{before, count, rsplit, ends_with, split, starts_with, drop}
use grid_node_registry.Text.Like.{like}
use grid_node_registry.Alias.{
  universe_of, is_forest_root, parent_alias, rewrite_alias, moved_child_new_prefix, last_word,
}
use grid_node_registry.Sema.Enums.{class_eq, status_eq, class_values}
use grid_node_registry.Sema.Regex.{fullmatch}
use grid_node_registry.Sema.Format.{
  is_left_right_dot, is_uuid4_str, is_utc_milliseconds, left_right_dot_pattern, uuid4_str_pattern,
}
use grid_node_registry.Sema.GNode.{
  validate, check_fields, check_axiom_1, check_axiom_2, check_axiom_3, check_axiom_4, check_axiom_5,
  check_axiom_6,
}
use grid_node_registry.Sema.Messages.{GNodeForest, validate_forest, validate_edge}
use grid_node_registry.Registry.Models.{Tables, row_of_gt, gt_of_row}
use grid_node_registry.Registry.Validate.{
  validate_registry, check_universe_scope, check_parent_closed_active, is_active, get_by_alias,
  check_edges_non_tree, active_edges_of, check_class_hierarchy, demand,
  check_active_physical_have_position, lacks_position,
}
use grid_node_registry.Registry.Session.{
  Result, ok, err, create_error, id_exists, ◌>>=◌, transaction, get_node, query_alias, get_claim,
  get_command, add_node, add_command,
}
use grid_node_registry.Registry.Ledger.{claim_alias, insert_claim, check_owner}
use grid_node_registry.Authority.{
  check_proof, validated, to_gt, to_gts, edges_to_gts, new_forest, subtree_rows, in_subtree_sql,
  edges_among, active_edge_where,
}
use grid_node_registry.Authority.Create.{
  apply_create, create_unless_logged, create_guards, check_claim, check_parent, check_parent_row,
  create_writes, refuse_violations, row_to_gt,
}
use grid_node_registry.Authority.Reparent.{
  apply_reparent, reparent_unless_logged, reparent_guards, reparent_writes, put, lookup, intend,
  intend_rows, require_child, require_parent, collisions, collides, refuse_collisions, rename,
  rename_row, rewrite_rows, rewrite_prefix, move_children, note, updated_rows,
}
use grid_node_registry.Authority.Reachability.{Command, apply, create, reparent}
use grid_node_registry.Tests.Samples.{
  world, config, tables, create_ta, create_again, insert_n, id_ta,
}

-- The command on the sample's instance.
unfoldable pub run : Command → Tables → Result GNodeForest × Tables
unfolding drop text_eq option_eq nat_eq class_eq status_eq apply apply_create apply_reparent ◌>>=◌
    check_proof transaction create_unless_logged get_command create_guards universe_of before
    get_node check_claim get_claim check_parent check_parent_row is_forest_root count parent_alias
    rsplit query_alias create_writes add_node row_of_gt claim_alias insert_claim check_owner
    refuse_violations validate_registry check_universe_scope check_parent_closed_active is_active
    get_by_alias check_edges_non_tree active_edges_of check_class_hierarchy demand
    check_active_physical_have_position lacks_position add_command row_to_gt to_gt gt_of_row
    validated validate check_fields is_uuid4_str uuid4_str_pattern is_left_right_dot
    left_right_dot_pattern check_axiom_1 check_axiom_2 check_axiom_3 check_axiom_4 check_axiom_5
    check_axiom_6 class_values ends_with split new_forest validate_forest is_utc_milliseconds
    fullmatch reparent_unless_logged reparent_guards require_parent intend require_child
    subtree_rows in_subtree_sql like starts_with put lookup intend_rows rewrite_alias
    moved_child_new_prefix last_word collisions collides refuse_collisions reparent_writes
    move_children rewrite_prefix rewrite_rows rename rename_row note updated_rows edges_among
    active_edge_where to_gts edges_to_gts validate_edge
run cmd t = apply world config cmd t

-- The broadcast of the created node.
abbrev pub created : GNodeForest
created = record {
  roots = create_ta.new_node.alias ∷ [];
  nodes = create_ta.new_node ∷ [];
  edges = [];
  send_time_ms = world.send_time_ms;
  proof = none;
}

pub create_succeeds : (apply world config (create create_ta) tables).0 ≡ ok created
unfolding run
create_succeeds = refl

-- The tables after the creation of `d1.isone.keene.beech.ta`, and after the insertion of
-- `d1.isone.keene.n` above `beech`.
abbrev pub with_ta : Tables
with_ta = (apply world config (create create_ta) tables).1

abbrev pub with_both : Tables
with_both = (apply world config (reparent insert_n) with_ta).1

insertion_moves_the_subtree :
    map (λ n. n.alias) with_both.g_nodes
    ≡ codes "d1.isone"
      ∷ codes "d1.isone.keene"
      ∷ codes "d1.isone.keene.n.beech"
      ∷ codes "d1.isone.keene.n.beech.ta"
      ∷ codes "d1.isone.keene.n"
      ∷ []
unfolding run
insertion_moves_the_subtree = refl

second_creation_is_refused :
    (apply world config (create create_again) with_ta).0 ≡ err (create_error (id_exists id_ta))
unfolding run
second_creation_is_refused = refl
