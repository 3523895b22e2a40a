-- ===== src/Tests/Facts.antt =====
-- The sample registry is sound.
use grid_node_registry.Prelude.{
  ◌≡◌, refl, sym, ap, arith, inl, inr, Bool, true, not, ◌&&◌, List, [], ◌∷◌, Text, text_eq, ◌==◌,
  any, not_any, UniqueBy,
}
use grid_node_registry.Sema.Enums.{class_eq, status_eq}
use grid_node_registry.Registry.Models.{GNodeSql, AliasAssignmentSql}
use grid_node_registry.Text.{before, count, rsplit}
use grid_node_registry.Alias.{universe_of, is_forest_root, parent_alias}
use grid_node_registry.Registry.Validate.{
  validate_registry, check_universe_scope, check_parent_closed_active, is_active, get_by_alias,
  check_edges_non_tree, active_edges_of, check_class_hierarchy, demand,
  check_active_physical_have_position, lacks_position,
}
use grid_node_registry.Registry.Validate.Spec.{HasUniqueNodes}
use grid_node_registry.Registry.Consistency.{IsKeyed, claim_of}
use grid_node_registry.Authority.Consistency.{IsRegistry}
use grid_node_registry.Tests.Samples.{tables, config, isone, keene, beech}

-- The test of all pairs of keys.
abbrev distinct : {A : Type 0} → (A → Text) → List A → Bool
distinct key [] = true
distinct key (x ∷ xs) = let rest = distinct key xs in not (any (λ y. key y == key x) xs) && rest

UniqueBy-of : {A : Type 0} (key : A → Text) (xs : List A) → distinct key xs ≡ true → UniqueBy key xs
UniqueBy-of key [] h = tt
UniqueBy-of key (x ∷ xs) h =
    (not_any key (key x) xs (ground arith), UniqueBy-of key xs (ground arith))

pub unique_nodes : HasUniqueNodes tables
unfolding text_eq
unique_nodes = record {
  ids = UniqueBy-of (λ n. n.id) tables.g_nodes refl;
  aliases = UniqueBy-of (λ n. n.alias) tables.g_nodes refl;
}

keyed : IsKeyed tables
unfolding text_eq
keyed = record {
  ids = unique_nodes.ids;
  aliases = unique_nodes.aliases;
  claims = UniqueBy-of (λ c. c.alias) tables.alias_assignment refl;
  commands = tt;
  owners = λ c i. elim i [
    | inl e ↦ (isone, inl refl, sym (ap (λ x. x.g_node_id) e))
    | inr (inl e) ↦ (keene, inr (inl refl), sym (ap (λ x. x.g_node_id) e))
    | inr (inr (inl e)) ↦ (beech, inr (inr (inl refl)), sym (ap (λ x. x.g_node_id) e))
    | inr (inr (inr k)) ↦ absurd k
  ];
}

abbrev claim : GNodeSql → AliasAssignmentSql
claim n = claim_of n.alias n.id

pub no_violations : validate_registry tables config.universe ≡ []
unfolding validate_registry text_eq class_eq status_eq check_universe_scope universe_of before
    check_parent_closed_active is_active is_forest_root count get_by_alias parent_alias rsplit
    check_edges_non_tree active_edges_of check_class_hierarchy demand
    check_active_physical_have_position lacks_position
no_violations = refl

pub sound : IsRegistry config.universe tables
sound = record {
  consistent = record {
    keyed = keyed;
    owned = λ n i. elim i [
      | inl e ↦ inl (ap claim e)
      | inr (inl e) ↦ inr (inl (ap claim e))
      | inr (inr (inl e)) ↦ inr (inr (inl (ap claim e)))
      | inr (inr (inr k)) ↦ absurd k
    ];
  };
  clean = no_violations;
}
