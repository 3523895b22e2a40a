-- ===== src/Registry/Validate/Spec.antt =====
-- The audit as a whole, against the invariants that the documentation of the registry states.
use grid_node_registry.Prelude.{
  ◌≡◌, ◌↔◌, List, [], map, Text, text_eq, option_eq, flat_map, flat_map-eq_nil, append-eq_nil,
  All-In, All-of, In, In-filter, In-filter_of, UniqueBy,
}
use grid_node_registry.Alias.{universe_of}
use grid_node_registry.Sema.Enums.{active, class_eq, status_eq}
use grid_node_registry.Registry.Models.{GNodeSql, ConnectivityEdgeSql, Tables}
use grid_node_registry.Registry.Violations.{Violation}
use grid_node_registry.Registry.Validate.{
  check_parent_closed_active, check_universe_scope, check_active_physical_have_position,
  check_edges_non_tree, check_class_hierarchy, active_edges_of, validate_registry,
}
use grid_node_registry.Registry.Validate.Nodes.{
  is_active_iff, HasActiveParent, HasPosition, parent_closed_at_sound, parent_closed_at_complete,
  scope_at_iff, position_at_iff,
}
use grid_node_registry.Registry.Validate.Edges.{IsNonTree, edge_at_sound, edge_at_complete}
use grid_node_registry.Registry.Validate.Classes.{
  IsPlaced, hierarchy_at-sound, hierarchy_at_complete,
}

-- The invariants of the whole registry, for the instance that serves `universe`.
pub record IsClean (t : Tables) (universe : Text) : Type 0 where
  pub scoped : (n : GNodeSql) → In n t.g_nodes → universe_of n.alias ≡ universe
  pub parents : (n : GNodeSql) → In n t.g_nodes → HasActiveParent t.g_nodes n
  pub edges :
      (e : ConnectivityEdgeSql)
      → In e t.connectivity_edges
      → e.status ≡ active
      → IsNonTree t.g_nodes e
  pub classes : (n : GNodeSql) → In n t.g_nodes → IsPlaced t.g_nodes n
  pub positions :
      (n : GNodeSql) → In n t.g_nodes → HasPosition (map (λ p. p.id) t.position_points) n

-- The unique columns of `g_nodes`.
pub record HasUniqueNodes (t : Tables) : Type 0 where
  pub ids : UniqueBy (λ (n : GNodeSql). n.id) t.g_nodes
  pub aliases : UniqueBy (λ (n : GNodeSql). n.alias) t.g_nodes

checks_empty :
    (t : Tables) (universe : Text)
    → (validate_registry t universe ≡ []) ↔ (
        (check_universe_scope t.g_nodes universe ≡ [])
        × (check_parent_closed_active t.g_nodes ≡ [])
        × (check_edges_non_tree t.g_nodes (active_edges_of t.connectivity_edges) ≡ [])
        × (check_class_hierarchy t.g_nodes ≡ [])
        × (check_active_physical_have_position t.g_nodes (map (λ p. p.id) t.position_points) ≡ []))
unfolding validate_registry
checks_empty t universe = (
  λ h.
      let (a, r) = (append-eq_nil _ _).0 h in
      let (b, s) = (append-eq_nil _ _).0 r in
      let (c, q) = (append-eq_nil _ _).0 s in
      let (d, e) = (append-eq_nil _ _).0 q in (a, b, c, d, e),
  λ (a, b, c, d, e). rw (a, b, c, d, e),
)

-- One check over all the rows of a list.
each :
    {A : Type 0} (f : A → List Violation) (xs : List A)
    → (flat_map f xs ≡ []) ↔ ((x : A) → In x xs → f x ≡ [])
each f xs = (
  λ h x i. All-In (λ y. f y ≡ []) x xs ((flat_map-eq_nil f xs).0 h) i,
  λ h. (flat_map-eq_nil f xs).1 (All-of (λ y. f y ≡ []) xs h),
)

IsClean-of :
    (t : Tables) (universe : Text)
    → HasUniqueNodes t
    → validate_registry t universe ≡ []
    → IsClean t universe
unfolding check_universe_scope check_parent_closed_active check_edges_non_tree check_class_hierarchy
    check_active_physical_have_position active_edges_of
IsClean-of t universe u h =
    let (a, b, c, d, e) = (checks_empty t universe).0 h in
    record {
      scoped = λ n i. (scope_at_iff universe n).0 ((each _ _).0 a n i);
      parents = λ n i. parent_closed_at_sound t.g_nodes n ((each _ _).0 b n i);
      edges = λ x i s. edge_at_sound t.g_nodes x (
          (each _ _).0 c x
            (In-filter_of _ x t.connectivity_edges i ((is_active_iff x.status).1 s)));
      classes = λ n i. hierarchy_at-sound t.g_nodes n u.aliases ((each _ _).0 d n i);
      positions = λ n i. (position_at_iff _ n).0 ((each _ _).0 e n i);
    }

of_clean :
    (t : Tables) (universe : Text)
    → HasUniqueNodes t
    → IsClean t universe
    → validate_registry t universe ≡ []
unfolding check_universe_scope check_parent_closed_active check_edges_non_tree check_class_hierarchy
    check_active_physical_have_position active_edges_of
of_clean t universe u h = (checks_empty t universe).1 (
  (each _ _).1 (λ n i. (scope_at_iff universe n).1 (h.scoped n i)),
  (each _ _).1 (λ n i. parent_closed_at_complete t.g_nodes n u.aliases (h.parents n i)),
  (each _ _).1 (λ x i.
      let (j, s) = In-filter _ x t.connectivity_edges i in
      edge_at_complete t.g_nodes x u.ids (h.edges x j ((is_active_iff x.status).0 s))),
  (each _ _).1 (λ n i. hierarchy_at_complete t.g_nodes n (h.classes n i)),
  (each _ _).1 (λ n i. (position_at_iff _ n).1 (h.positions n i)),
)

-- Where ids and aliases are unique, `validate_registry` returns no violation exactly when every
-- alias lies in the universe, every active non-root has an active parent, every active edge joins
-- two active nodes that are not parent and child, every node has a legal parent class, and every
-- active physical node holds a position that has a row.
pub validate_registry_iff :
    (t : Tables) (universe : Text)
    → HasUniqueNodes t
    → (validate_registry t universe ≡ []) ↔ IsClean t universe
validate_registry_iff t universe u = (IsClean-of t universe u, of_clean t universe u)
