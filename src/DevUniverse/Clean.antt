-- ===== src/DevUniverse/Clean.antt =====
-- The development universe (src/gnr/dev_universe.py) passes the audit.
use grid_node_registry.Prelude.{
  ◌≡◌, refl, sym, ap, ◌∙◌, subst, inl, inr, true, some, List, [], ◌∷◌, ◌++◌, map, Text, text_eq,
  ◌==◌, ==→≡, any-In, In-map_inv, flat_map-eq_nil, contains, sort, text_leb, In, In-sort, In-map,
  In-append_left, In-append_right, All-of, Option-cases, Bool-cases,
}
use grid_node_registry.Sema.GNode.{GNodeGt}
use grid_node_registry.Text.{before, count, rsplit, starts_with}
use grid_node_registry.Alias.{universe_of, is_forest_root, parent_alias}
use grid_node_registry.Sema.Enums.{pending, active, logical, class_eq, status_eq}
use grid_node_registry.Registry.Models.{Tables, GNodeSql, PositionPointSql, row_of_gt}
use grid_node_registry.Registry.Validate.{
  validate_registry, check_universe_scope, check_parent_closed_active, is_active, get_by_alias,
  check_edges_non_tree, active_edges_of, check_class_hierarchy, demand,
  check_active_physical_have_position, position_at,
}
use grid_node_registry.Registry.Validate.Nodes.{HasPosition, position_at_iff}
use grid_node_registry.DevUniverse.{
  DevSpec, pending_home, dev_position_id_for, dev_universe_specs, build_dev_universe, dev_node,
  dev_universe, add_positions, dev_position_id, point_row,
}
use grid_node_registry.DevUniverse.Seeding.{claim_row}

-- The rows that the seed inserts.
abbrev pub dev_rows : (Text → Text) → List GNodeSql
dev_rows uuid = map row_of_gt (build_dev_universe uuid)

abbrev pub dev_points : (Text → Text) → List Text
dev_points uuid =
    sort text_leb (add_positions uuid (build_dev_universe uuid) (dev_position_id uuid ∷ []))

abbrev pub seeded_tables : (Text → Text) → Tables → Tables
seeded_tables uuid t = record t {
  position_points = map point_row (dev_points uuid);
  connectivity_edges = [];
  g_nodes = dev_rows uuid;
  alias_assignment = map claim_row (build_dev_universe uuid);
}

-- ---- the audit of the rows

in_universe : (uuid : Text → Text) → check_universe_scope (dev_rows uuid) dev_universe ≡ []
unfolding text_eq class_eq status_eq check_universe_scope universe_of before
    check_parent_closed_active is_active is_forest_root count get_by_alias parent_alias rsplit
    check_class_hierarchy demand build_dev_universe dev_node starts_with row_of_gt
in_universe uuid = refl

parents_closed : (uuid : Text → Text) → check_parent_closed_active (dev_rows uuid) ≡ []
unfolding text_eq class_eq status_eq check_universe_scope universe_of before
    check_parent_closed_active is_active is_forest_root count get_by_alias parent_alias rsplit
    check_class_hierarchy demand build_dev_universe dev_node starts_with row_of_gt
parents_closed uuid = refl

classes_legal : (uuid : Text → Text) → check_class_hierarchy (dev_rows uuid) ≡ []
unfolding text_eq class_eq status_eq check_universe_scope universe_of before
    check_parent_closed_active is_active is_forest_root count get_by_alias parent_alias rsplit
    check_class_hierarchy demand build_dev_universe dev_node starts_with row_of_gt
classes_legal uuid = refl

-- ---- the positions

add_positions-keeps :
    (uuid : Text → Text) (gs : List GNodeGt) (ids : List Text) (id : Text)
    → In id ids
    → In id (add_positions uuid gs ids)
unfolding add_positions
add_positions-keeps uuid [] ids id i = i
add_positions-keeps uuid (g ∷ gs) ids id i = elim (Option-cases g.position_point_id) [
  | inl e ↦ rw (e, add_positions) (add_positions-keeps uuid gs ids id i)
  | inr (x, e) ↦ elim (Bool-cases (contains ids x)) [
    | inl p ↦ rw (e, add_positions, p) (add_positions-keeps uuid gs ids id i)
    | inr p ↦
        rw (e, add_positions, p)
          (add_positions-keeps uuid gs (ids ++ x ∷ []) id (In-append_left id ids (x ∷ []) i))
  ]
]

-- Each position of a node has a row.
In-add_positions :
    (uuid : Text → Text) (gs : List GNodeGt) (ids : List Text) (g : GNodeGt) (id : Text)
    → In g gs
    → g.position_point_id ≡ some id
    → In id (add_positions uuid gs ids)
unfolding add_positions
In-add_positions uuid [] ids g id i e = absurd i
In-add_positions uuid (h ∷ gs) ids g id (inr i) e = elim (Option-cases h.position_point_id) [
  | inl p ↦ rw (p, add_positions) (In-add_positions uuid gs ids g id i e)
  | inr (x, p) ↦ rw (p, add_positions) (In-add_positions uuid gs _ g id i e)
]
In-add_positions uuid (h ∷ gs) ids g id (inl same) e =
    let p : h.position_point_id ≡ some id = ap (λ x. x.position_point_id) (sym same) ∙ e in
    elim (Bool-cases (contains ids id)) [
      | inl c ↦ rw (p, add_positions, c) (add_positions-keeps uuid gs ids id (found ids c))
      | inr c ↦
          rw (p, add_positions, c)
            (add_positions-keeps uuid gs (ids ++ id ∷ []) id
              (In-append_right id ids (id ∷ []) (inl refl)))
    ]
  where
    found : (ids : List Text) → contains ids id ≡ true → In id ids
    found ids c =
        let (x, i, q) = any-In (λ x. id == x) ids c in subst (λ y. In y ids) (sym (==→≡ id x q)) i

map_points : (ids : List Text) → map (λ (p : PositionPointSql). p.id) (map point_row ids) ≡ ids
map_points [] = refl
map_points (x ∷ ids) = cc (map_points ids)

node_placed :
    (uuid : Text → Text) (ids : List Text) (s : DevSpec)
    → ((id : Text) → (dev_node uuid s).position_point_id ≡ some id → In id ids)
    → HasPosition ids (row_of_gt (dev_node uuid s))
unfolding dev_node row_of_gt
node_placed uuid ids s h live physical = elim (Bool-cases (s.base_class == logical)) [
  | inl l ↦ absurd (physical (==→≡ s.base_class logical l))
  | inr l ↦ elim (Bool-cases (starts_with s.alias pending_home)) [
    | inl p ↦ absurd (not_live (rw p at live))
    | inr p ↦ (
      dev_position_id_for uuid s.alias,
      rw (l, p) refl,
      h (dev_position_id_for uuid s.alias) (rw (l, p) refl),
    )
  ]
]
  where
    not_live : pending ≡ active → ⊥
    not_live e = cc e

abbrev pub point_ids : (Text → Text) → List Text
point_ids uuid = map (λ (p : PositionPointSql). p.id) (map point_row (dev_points uuid))

pub registered :
    (uuid : Text → Text) (s : DevSpec) (id : Text)
    → In s dev_universe_specs
    → (dev_node uuid s).position_point_id ≡ some id
    → In id (point_ids uuid)
unfolding build_dev_universe
registered uuid s id k p = subst (In id) (sym (map_points (dev_points uuid))) (
    (In-sort text_leb id
        (add_positions uuid (build_dev_universe uuid) (dev_position_id uuid ∷ []))).1
      (In-add_positions uuid (build_dev_universe uuid) (dev_position_id uuid ∷ []) (dev_node uuid s)
        id (In-map (dev_node uuid) s dev_universe_specs k) p))

positions_given :
    (uuid : Text → Text) → check_active_physical_have_position (dev_rows uuid) (point_ids uuid) ≡ []
unfolding check_active_physical_have_position build_dev_universe
positions_given uuid = (flat_map-eq_nil (position_at (point_ids uuid)) (dev_rows uuid)).1 (
    All-of _ (dev_rows uuid) λ n i.
      let (g, j, e) = In-map_inv row_of_gt n (build_dev_universe uuid) i in
      let (s, k, f) = In-map_inv (dev_node uuid) g dev_universe_specs j in
      (position_at_iff (point_ids uuid) n).1 (
        subst (HasPosition (point_ids uuid)) (sym (e ∙ ap row_of_gt f))
          (node_placed uuid (point_ids uuid) s λ id p. registered uuid s id k p)))

pub seeded-clean :
    (uuid : Text → Text) (t : Tables) → validate_registry (seeded_tables uuid t) dev_universe ≡ []
unfolding validate_registry check_edges_non_tree active_edges_of
seeded-clean uuid t =
    rw (in_universe uuid, parents_closed uuid, classes_legal uuid, positions_given uuid) refl
