-- ===== src/Tests/Reads.antt =====
-- The routes of the façade on the sample registry, after a creation and an insertion.
use grid_node_registry.Prelude.{◌≡◌, ◌↔◌, true, refl, none, codes, text_eq, In, option_eq, nat_eq}
use grid_node_registry.Sema.Format.{is_left_right_dot}
use grid_node_registry.Registry.Session.{get_claim}
use grid_node_registry.Registry.Consistency.{claim_of, IsConsistent}
use grid_node_registry.Authority.{resolve_alias, optional_gt, current_or_past, owner_of}
use grid_node_registry.Authority.Reachability.{create, reparent, start, step, Reach-IsRegistry}
use grid_node_registry.Api.{not_found, success, g_node_by_alias}
use grid_node_registry.Api.Answers.{g_node_by_alias-not_found, g_node_by_alias-owner}
use grid_node_registry.Tests.Samples.{
  world, config, tables, create_ta, insert_n, beech, moved_beech,
}
use grid_node_registry.Tests.Facts.{sound}
use grid_node_registry.Tests.Runs.{run, with_ta, with_both}

consistent : IsConsistent with_both
consistent =
    (Reach-IsRegistry config tables with_both sound (
      step world (reparent insert_n) with_ta
        (step world (create create_ta) tables start))).consistent

formatted : is_left_right_dot (codes "d1.nobody") ≡ true
unfolding run
formatted = refl

-- An alias that the registry has never assigned.
g_node_by_alias-not_found_example :
    (g_node_by_alias (codes "d1.nobody") with_both ≡ not_found (codes "d1.nobody"))
    ↔ (get_claim (codes "d1.nobody") with_both ≡ none)
g_node_by_alias-not_found_example =
    g_node_by_alias-not_found with_both consistent (codes "d1.nobody") formatted

past_alias_resolves : g_node_by_alias beech.alias with_both ≡ success moved_beech
unfolding run g_node_by_alias resolve_alias optional_gt current_or_past owner_of
past_alias_resolves = refl

-- The alias of `beech` before it was moved.
g_node_by_alias-owner_example :
    In (claim_of beech.alias moved_beech.g_node_id) with_both.alias_assignment
g_node_by_alias-owner_example =
    g_node_by_alias-owner with_both consistent beech.alias moved_beech past_alias_resolves
