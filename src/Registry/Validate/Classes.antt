-- ===== src/Registry/Validate/Classes.antt =====
-- The check of the class hierarchy, at one node.
use grid_node_registry.Prelude.{
  ◌≡◌, ◌↔◌, refl, ◌⊎◌, inl, inr, true, false, some, List, [], arith, codes, text_eq, option_eq, In,
  UniqueBy, Option-cases, Bool-cases,
}
use grid_node_registry.Alias.{parent_alias, is_forest_root}
use grid_node_registry.Sema.Enums.{
  BaseGNodeClass, logical, terminal_asset, leaf_transactive_node, connectivity_node, market_maker,
  class_eq, status_eq,
}
use grid_node_registry.Registry.Models.{GNodeSql}
use grid_node_registry.Registry.Validate.{
  get_by_alias, hierarchy_at, is_copper, is_scada, root_is_legal, demand, class_violations,
}
use grid_node_registry.Registry.Validate.Nodes.{get_by_alias-some, get_by_alias_unique}

abbrev pub IsCopper : BaseGNodeClass → Type 0
IsCopper c = (c ≡ connectivity_node) ⊎ (c ≡ market_maker)

abbrev pub IsScada : GNodeSql → Type 0
IsScada n = n.g_node_class ≡ codes "Scada"

-- What may stand at the top of a forest.
abbrev pub LegalRoot : GNodeSql → Type 0
LegalRoot n = IsCopper n.base_class ⊎ ((n.base_class ≡ logical) × ¬ IsScada n)

-- The classes that may stand above a node.
pub record LegalParent (n p : GNodeSql) : Type 0 where
  pub under_copper :
      IsCopper n.base_class ⊎ (n.base_class ≡ leaf_transactive_node) → IsCopper p.base_class
  pub under_leaf : n.base_class ≡ terminal_asset → p.base_class ≡ leaf_transactive_node
  pub scada_under_leaf : n.base_class ≡ logical → IsScada n → p.base_class ≡ leaf_transactive_node

pub record IsPlaced (nodes : List GNodeSql) (n : GNodeSql) : Type 0 where
  pub root : is_forest_root n.alias ≡ true → LegalRoot n
  pub below :
      is_forest_root n.alias ≡ false
      → (p : GNodeSql) → In p nodes
      → p.alias ≡ parent_alias n.alias
      → LegalParent n p

is_copper_iff : (c : BaseGNodeClass) → (is_copper c ≡ true) ↔ IsCopper c
unfolding is_copper
is_copper_iff c = (λ h. ground arith, λ h. ground arith)

is_scada_iff : (n : GNodeSql) → (is_scada n ≡ true) ↔ IsScada n
unfolding is_scada
is_scada_iff n = (λ h. ground arith, λ h. ground arith)

root_is_legal_iff : (n : GNodeSql) → (root_is_legal n ≡ true) ↔ LegalRoot n
unfolding root_is_legal
root_is_legal_iff n = (λ h. ground arith, λ h. ground arith)

class_violations_iff :
    (n p : GNodeSql) → (class_violations n (demand n) (some p) ≡ []) ↔ LegalParent n p
unfolding class_violations demand
class_violations_iff n p = (
  λ h. record {
    under_copper = λ c. ground arith;
    under_leaf = λ c. ground arith;
    scada_under_leaf = λ c d. ground arith;
  },
  λ h. ground (arith, h.under_copper, h.under_leaf, h.scada_under_leaf),
)

pub hierarchy_at-sound :
    (nodes : List GNodeSql) (n : GNodeSql)
    → UniqueBy (λ m. m.alias) nodes
    → hierarchy_at nodes n ≡ []
    → IsPlaced nodes n
unfolding hierarchy_at
hierarchy_at-sound nodes n u h = record {
  root = λ r. (root_is_legal_iff n).0 (ground arith);
  below = λ r p i e. (class_violations_iff n p).0 (rw (r, get_by_alias_unique nodes p u i e) at h);
}

pub hierarchy_at_complete :
    (nodes : List GNodeSql) (n : GNodeSql) → IsPlaced nodes n → hierarchy_at nodes n ≡ []
unfolding hierarchy_at
hierarchy_at_complete nodes n h = elim (Bool-cases (is_forest_root n.alias)) [
  | inl r ↦ rw (r, (root_is_legal_iff n).1 (h.root r))
  | inr r ↦ elim (Option-cases (get_by_alias nodes (parent_alias n.alias))) [
    | inl missing ↦ rw (r, missing) (unfold class_violations in refl)
    | inr (p, found) ↦
        let (i, e) = get_by_alias-some nodes _ p found in
        rw (r, found) ((class_violations_iff n p).1 (h.below r p i e))
  ]
]
