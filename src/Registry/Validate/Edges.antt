-- ===== src/Registry/Validate/Edges.antt =====
-- The check of one stored edge.
use grid_node_registry.Prelude.{
  ◌≡◌, ◌≢◌, ◌↔◌, refl, false, Option, none, some, List, [], arith, text_eq, option_eq,
  append-eq_nil, In, UniqueBy,
}
use grid_node_registry.Alias.{parent_alias}
use grid_node_registry.Sema.Enums.{active, class_eq, status_eq}
use grid_node_registry.Registry.Models.{GNodeSql, ConnectivityEdgeSql}
use grid_node_registry.Registry.Validate.{
  edge_at, endpoint_violations, mirrors_tree, edge_violations,
}
use grid_node_registry.Registry.Validate.Nodes.{is_active_iff, get_by_id-some, get_by_id_unique}

-- Both ends exist and are active, and neither is the other's parent.
abbrev pub IsNonTree : List GNodeSql → ConnectivityEdgeSql → Type 0
IsNonTree nodes e =
    (f : GNodeSql) × (t : GNodeSql) × In f nodes
    × In t nodes
    × (f.id ≡ e.from_g_node_id)
    × (t.id ≡ e.to_g_node_id)
    × (f.status ≡ active)
    × (t.status ≡ active)
    × (parent_alias t.alias ≢ f.alias)
    × (parent_alias f.alias ≢ t.alias)

mirrors_tree_iff :
    (f t : GNodeSql)
    → (mirrors_tree f t ≡ false)
      ↔ ((parent_alias t.alias ≢ f.alias) × (parent_alias f.alias ≢ t.alias))
unfolding mirrors_tree
mirrors_tree_iff f t = (λ h. ground arith, λ h. ground arith)

endpoint_violations_iff :
    (e : ConnectivityEdgeSql) (n : GNodeSql) → (endpoint_violations e n ≡ []) ↔ (n.status ≡ active)
unfolding endpoint_violations
endpoint_violations_iff e n =
    (λ h. (is_active_iff n.status).0 (ground arith), λ h. rw ((is_active_iff n.status).1 h))

edge_violations-some :
    (e : ConnectivityEdgeSql) (f t : GNodeSql)
    → (edge_violations e (some f) (some t) ≡ [])
      ↔ ((f.status ≡ active) × (t.status ≡ active) × (mirrors_tree f t ≡ false))
unfolding edge_violations
edge_violations-some e f t = (
  λ h.
      let (a, r) = (append-eq_nil (endpoint_violations e f) _).0 h in
      let (b, m) = (append-eq_nil (endpoint_violations e t) _).0 r in
      ((endpoint_violations_iff e f).0 a, (endpoint_violations_iff e t).0 b, ground arith),
  λ (a, b, m). rw ((endpoint_violations_iff e f).1 a, (endpoint_violations_iff e t).1 b, m),
)

edge_violations-ends :
    (e : ConnectivityEdgeSql) (o p : Option GNodeSql)
    → edge_violations e o p ≡ []
    → (f : GNodeSql) × (t : GNodeSql) × (o ≡ some f) × (p ≡ some t)
unfolding edge_violations
edge_violations-ends e none p h = cc
edge_violations-ends e (some f) none h = cc
edge_violations-ends e (some f) (some t) h = (f, t, refl, refl)

pub edge_at_sound :
    (nodes : List GNodeSql) (e : ConnectivityEdgeSql) → edge_at nodes e ≡ [] → IsNonTree nodes e
unfolding edge_at
edge_at_sound nodes e h =
    let (f, t, p, q) = edge_violations-ends e _ _ h in
    let (a, b, m) = (edge_violations-some e f t).0 (rw (p, q) at h) in
    let (i, x) = get_by_id-some nodes _ f p in
    let (j, y) = get_by_id-some nodes _ t q in
    let (c, d) = (mirrors_tree_iff f t).0 m in (f, t, i, j, x, y, a, b, c, d)

pub edge_at_complete :
    (nodes : List GNodeSql) (e : ConnectivityEdgeSql)
    → UniqueBy (λ m. m.id) nodes
    → IsNonTree nodes e
    → edge_at nodes e ≡ []
unfolding edge_at
edge_at_complete nodes e u (f, t, i, j, x, y, a, b, c, d) =
    rw (get_by_id_unique nodes f u i x, get_by_id_unique nodes t u j y)
      ((edge_violations-some e f t).1 (a, b, (mirrors_tree_iff f t).1 (c, d)))
