-- ===== src/Tests/Laws.antt =====
-- The theorems on aliases, nodes and the audit at concrete data.
use grid_node_registry.Prelude.{
  false, ◌≡◌, ◌≢◌, ◌↔◌, ◌⊎◌, inl, inr, refl, true, arith, none, [], codes, text_eq, In,
}
use grid_node_registry.Text.{count, rsplit}
use grid_node_registry.Text.Like.{IsPlain}
use grid_node_registry.Alias.{
  in_subtree, rewrite_alias, moved_child_new_prefix, last_word, universe_of, parent_alias,
  is_forest_root,
}
use grid_node_registry.Alias.Paths.{child_of}
use grid_node_registry.Alias.Rewrite.{
  rewrite_alias_back, rewrite_alias_injective, parent_alias-rewrite_alias, moved_alias,
}
use grid_node_registry.Sema.Enums.{
  pending, active, suspended, permanently_deactivated, market_maker, connectivity_node,
}
use grid_node_registry.Sema.Format.{is_left_right_dot-IsPlain}
use grid_node_registry.Sema.GNode.Axioms.{IsValid, validate-IsValid}
use grid_node_registry.Lifecycle.{check_status_transition, check_base_class_transition}
use grid_node_registry.Lifecycle.Reachability.{
  History, Move, check_status_transition_iff, History-iff, check_base_class_transition_iff,
}
use grid_node_registry.Lifecycle.Reachability as Life
use grid_node_registry.Registry.Models.{GNodeSql}
use grid_node_registry.Registry.Validate.{validate_registry}
use grid_node_registry.Registry.Validate.Spec.{IsClean, validate_registry_iff}
use grid_node_registry.Registry.Validate.Hierarchy.{
  Above, self, up, IsLive, validate_registry-ancestors, validate_registry-root,
}
use grid_node_registry.Authority.{in_subtree_sql}
use grid_node_registry.Authority.Subtree.{in_subtree_sql_agrees}
use grid_node_registry.Authority.Reachability.{reparent}
use grid_node_registry.Tests.Samples.{config, tables, create_ta, insert_n, isone, keene, beech}
use grid_node_registry.Tests.Facts.{unique_nodes, no_violations}
use grid_node_registry.Tests.Runs.{run}
use grid_node_registry.Service.{radio_channel}
use grid_node_registry.Service.Answers.{moved_under-radio_channel}

in_subtree_sql_agrees_example :
    in_subtree_sql keene.alias beech.alias ≡ in_subtree beech.alias keene.alias
unfolding run
in_subtree_sql_agrees_example = in_subtree_sql_agrees keene.alias beech.alias refl

is_left_right_dot-IsPlain_example : IsPlain keene.alias
unfolding run
is_left_right_dot-IsPlain_example = is_left_right_dot-IsPlain keene.alias refl

validate_registry_iff_example :
    (validate_registry tables config.universe ≡ []) ↔ IsClean tables config.universe
validate_registry_iff_example = validate_registry_iff tables config.universe unique_nodes

Above-beech : Above beech.alias isone.alias
unfolding parent_alias rsplit is_forest_root count
Above-beech = up (up self refl refl) refl refl

validate_registry-ancestors_example :
    (m : GNodeSql) × In m tables.g_nodes × (m.alias ≡ isone.alias) × IsLive m
validate_registry-ancestors_example =
    validate_registry-ancestors tables config.universe unique_nodes no_violations beech
      (inr (inr (inl refl))) (refl, λ e. ground arith) Above-beech

validate_registry-root_example :
    (m : GNodeSql) × In m tables.g_nodes
    × Above beech.alias m.alias
    × (is_forest_root m.alias ≡ true)
    × (m.status ≡ active)
    × Life.IsCopper m.base_class
unfolding count
validate_registry-root_example =
    validate_registry-root tables config.universe unique_nodes no_violations beech {k = 2}
      (inr (inr (inl refl))) (refl, λ e. ground arith) refl

validate-IsValid_example : IsValid create_ta.new_node
unfolding run
validate-IsValid_example = validate-IsValid create_ta.new_node refl

History-iff_example :
    History pending suspended
    ↔ ((pending ≡ suspended) ⊎ ((pending ≢ permanently_deactivated) × (suspended ≢ pending)))
History-iff_example = History-iff pending suspended

check_status_transition_iff_example :
    (check_status_transition pending suspended ≡ none)
    ↔ ((pending ≡ suspended) ⊎ Move pending suspended)
check_status_transition_iff_example = check_status_transition_iff pending suspended

check_base_class_transition_iff_example :
    (check_base_class_transition connectivity_node market_maker ≡ none) ↔ (
      (connectivity_node ≡ market_maker)
      ⊎ (Life.IsCopper connectivity_node × Life.IsCopper market_maker))
check_base_class_transition_iff_example =
    check_base_class_transition_iff connectivity_node market_maker

under_beech : in_subtree (codes "d1.isone.keene.beech.ta") beech.alias ≡ true
unfolding run in_subtree
under_beech = refl

moved_alias_example :
    let b =
      rewrite_alias
        (codes "d1.isone.keene.beech.ta")
        beech.alias
        (moved_child_new_prefix (codes "d1.isone.keene.n") beech.alias) in
    (last_word b ≡ last_word (codes "d1.isone.keene.beech.ta"))
    × (universe_of b ≡ universe_of (codes "d1.isone.keene.n"))
moved_alias_example =
    moved_alias (codes "d1.isone.keene.n") beech.alias (codes "d1.isone.keene.beech.ta") under_beech

rewrite_alias_back_example :
    rewrite_alias
      (rewrite_alias (codes "d1.isone.keene.beech.ta") beech.alias (codes "d1.n"))
      (codes "d1.n")
      beech.alias
    ≡ codes "d1.isone.keene.beech.ta"
rewrite_alias_back_example =
    rewrite_alias_back (codes "d1.isone.keene.beech.ta") beech.alias (codes "d1.n") under_beech

rewrite_alias_injective_example : codes "d1.isone.keene.beech.ta" ≡ codes "d1.isone.keene.beech.ta"
rewrite_alias_injective_example =
    rewrite_alias_injective (codes "d1.isone.keene.beech.ta") (codes "d1.isone.keene.beech.ta")
      beech.alias (codes "d1.n") under_beech under_beech refl

parent_alias-rewrite_alias_example :
    parent_alias (rewrite_alias (child_of beech.alias (codes "ta")) beech.alias (codes "d1.n"))
    ≡ rewrite_alias (parent_alias (child_of beech.alias (codes "ta"))) beech.alias (codes "d1.n")
parent_alias-rewrite_alias_example =
    parent_alias-rewrite_alias beech.alias (codes "d1.n") (codes "ta")

moved_under-radio_channel_example :
    (in_subtree (codes "d1.isone.keene.beech.ta") (radio_channel (reparent insert_n)) ≡ true)
    × (in_subtree
          (rewrite_alias
            (codes "d1.isone.keene.beech.ta")
            beech.alias
            (moved_child_new_prefix insert_n.new_node.alias beech.alias))
          (radio_channel (reparent insert_n))
        ≡ true)
    × (in_subtree (radio_channel (reparent insert_n)) beech.alias ≡ false)
unfolding count parent_alias rsplit
moved_under-radio_channel_example =
    moved_under-radio_channel insert_n beech.alias (codes "d1.isone.keene.beech.ta") {k = 2} refl
      refl refl under_beech
