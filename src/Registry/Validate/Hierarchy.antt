-- ===== src/Registry/Validate/Hierarchy.antt =====
-- What a clean registry says of a whole branch: the ancestors of an active node.
use grid_node_registry.Prelude.{
  [], ℕ, zero, suc, ◌≡◌, ◌≢◌, refl, sym, ap, ◌∙◌, subst, ◌⊎◌, inl, inr, true, false, arith, Text,
  codes, nat_eq, In,
}
use grid_node_registry.Text.{dot, count}
use grid_node_registry.Alias.{parent_alias, is_forest_root}
use grid_node_registry.Alias.Paths.{count-parent_alias}
use grid_node_registry.Sema.Enums.{
  BaseGNodeClass, active, logical, terminal_asset, leaf_transactive_node, connectivity_node,
  market_maker,
}
use grid_node_registry.Registry.Models.{GNodeSql, Tables}
use grid_node_registry.Registry.Validate.{validate_registry}
use grid_node_registry.Registry.Validate.Spec.{IsClean, HasUniqueNodes, validate_registry_iff}
use grid_node_registry.Registry.Validate.Classes.{IsCopper, LegalParent}

-- `b` is `a` or above it, by steps to the parent that stop at a forest root.
pub data Above (a : Text) : Text → Type 0 where
  self : Above a a
  up : {b c : Text} → Above a b → is_forest_root b ≡ false → c ≡ parent_alias b → Above a c

Above-trans : {a b c : Text} → Above a b → Above b c → Above a c
Above-trans h self = h
Above-trans h (up k r e) = up (Above-trans h k) r e

is_forest_root_of : (a : Text) → count dot a ≡ 1 → is_forest_root a ≡ true
unfolding is_forest_root
is_forest_root_of a h = ground arith

not_root_of : (a : Text) {n : ℕ} → count dot a ≡ suc (suc n) → is_forest_root a ≡ false
unfolding is_forest_root
not_root_of a h = ground arith

-- Every alias of two or more words has a forest root above it.
pub root-Above :
    (n : ℕ) (a : Text) → count dot a ≡ suc n → (r : Text) × Above a r × (is_forest_root r ≡ true)
root-Above zero a h = (a, self, is_forest_root_of a h)
root-Above (suc n) a h =
    let (r, p, q) = root-Above n (parent_alias a) (count-parent_alias a h) in
    (r, Above-trans (up self (not_root_of a h) refl) p, q)

-- A node that is active and no logical one.
abbrev pub IsLive : GNodeSql → Type 0
IsLive n = (n.status ≡ active) × (n.base_class ≢ logical)

physical_parent :
    (n p : GNodeSql) → LegalParent n p → n.base_class ≢ logical → p.base_class ≢ logical
physical_parent n p h k = by_class n.base_class refl
  where
    by_class : (c : BaseGNodeClass) → n.base_class ≡ c → p.base_class ≢ logical
    by_class terminal_asset e q = cc (h.under_leaf e)
    by_class leaf_transactive_node e q = ground (arith, h.under_copper (inr e))
    by_class connectivity_node e q = ground (arith, h.under_copper (inl (inl e)))
    by_class market_maker e q = ground (arith, h.under_copper (inl (inr e)))
    by_class logical e q = absurd (k e)

module _ (t : Tables) (universe : Text) (clean : IsClean t universe) where
  -- In a clean registry every alias above an active node is the alias of an active node.
  pub ancestors_active :
      (n : GNodeSql) {b : Text}
      → In n t.g_nodes
      → n.status ≡ active
      → Above n.alias b
      → (m : GNodeSql) × In m t.g_nodes × (m.alias ≡ b) × (m.status ≡ active)
  ancestors_active n i a self = (n, i, refl, a)
  ancestors_active n i a (up {b} h r e) =
      let (m, j, x, y) = ancestors_active n i a h in
      let (p, k, u, v) = clean.parents m j y (ap is_forest_root x ∙ r) in
      (p, k, u ∙ ap parent_alias x ∙ sym e, v)

  -- In a clean registry every alias above an active physical node is the alias of an active
  -- physical node, so the active physical nodes are parent-closed up to a forest root.
  pub ancestors-IsLive :
      (n : GNodeSql) {b : Text}
      → In n t.g_nodes
      → IsLive n
      → Above n.alias b
      → (m : GNodeSql) × In m t.g_nodes × (m.alias ≡ b) × IsLive m
  ancestors-IsLive n i a self = (n, i, refl, a)
  ancestors-IsLive n i a (up {b} h r e) =
      let (m, j, x, y) = ancestors-IsLive n i a h in
      let r' : is_forest_root m.alias ≡ false = ap is_forest_root x ∙ r in
      let (p, k, u, v) = clean.parents m j y.0 r' in
      (
        p,
        k,
        u ∙ ap parent_alias x ∙ sym e,
        (v, physical_parent m p ((clean.classes m j).below r' p k u) y.1),
      )

  -- In a clean registry, above every active physical node whose alias has two words or more stands
  -- an active copper node that is a forest root.
  pub live_root :
      (n : GNodeSql) {k : ℕ}
      → In n t.g_nodes
      → IsLive n
      → count dot n.alias ≡ suc k
      → (m : GNodeSql) × In m t.g_nodes
        × Above n.alias m.alias
        × (is_forest_root m.alias ≡ true)
        × (m.status ≡ active)
        × IsCopper m.base_class
  live_root n {k} i a c =
      let (r, p, q) = root-Above k n.alias c in
      let (m, j, x, y) = ancestors-IsLive n i a p in
      let q' : is_forest_root m.alias ≡ true = ap is_forest_root x ∙ q in
      (
        m,
        j,
        subst (Above n.alias) (sym x) p,
        q',
        y.0,
        copper_root m ((clean.classes m j).root q') y.1,
      )
    where
      copper_root :
          (m : GNodeSql)
          → IsCopper m.base_class ⊎ ((m.base_class ≡ logical) × ¬ (m.g_node_class ≡ codes "Scada"))
          → m.base_class ≢ logical
          → IsCopper m.base_class
      copper_root m (inl h) k = h
      copper_root m (inr h) k = absurd (k h.0)

-- ---- a registry without violations

module _ (t : Tables) (universe : Text) (unique : HasUniqueNodes t)
    (audit : validate_registry t universe ≡ []) where
  IsClean-now : IsClean t universe
  IsClean-now = (validate_registry_iff t universe unique).0 audit

  -- Where ids and aliases are unique and the audit returns no violation, every alias above an active
  -- physical node is the alias of an active physical node.
  pub validate_registry-ancestors :
      (n : GNodeSql) {b : Text}
      → In n t.g_nodes
      → IsLive n
      → Above n.alias b
      → (m : GNodeSql) × In m t.g_nodes × (m.alias ≡ b) × IsLive m
  validate_registry-ancestors n i a h = ancestors-IsLive t universe IsClean-now n i a h

  -- Where ids and aliases are unique and the audit returns no violation, above every active physical
  -- node whose alias has a dot stands an active copper node that is a forest root.
  pub validate_registry-root :
      (n : GNodeSql) {k : ℕ}
      → In n t.g_nodes
      → IsLive n
      → count dot n.alias ≡ suc k
      → (m : GNodeSql) × In m t.g_nodes
        × Above n.alias m.alias
        × (is_forest_root m.alias ≡ true)
        × (m.status ≡ active)
        × IsCopper m.base_class
  validate_registry-root n i a c = live_root t universe IsClean-now n i a c
