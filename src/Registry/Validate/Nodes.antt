-- ===== src/Registry/Validate/Nodes.antt =====
-- The checks of one node: its universe, its parent and its position.
use grid_node_registry.Prelude.{
  ◌≡◌, ◌≢◌, ◌↔◌, refl, inl, inr, true, false, Option, none, some, List, [], ◌∷◌, arith, Text,
  text_eq, option_eq, ◌==◌, contains, In, UniqueBy, find?-some, find?_unique, Bool-cases, ==→≡,
}
use grid_node_registry.Alias.{universe_of, parent_alias, is_forest_root}
use grid_node_registry.Sema.Enums.{GNodeStatus, active, logical, class_eq, status_eq}
use grid_node_registry.Registry.Models.{GNodeSql}
use grid_node_registry.Registry.Validate.{
  get_by_alias, get_by_id, is_active, parent_violations, parent_closed_at, scope_at, position_at,
  lacks_position,
}

pub is_active_iff : (s : GNodeStatus) → (is_active s ≡ true) ↔ (s ≡ active)
unfolding is_active
is_active_iff s = (λ h. ground arith, λ h. ground arith)

pub get_by_alias-some :
    (nodes : List GNodeSql) (a : Text) (n : GNodeSql)
    → get_by_alias nodes a ≡ some n
    → In n nodes × (n.alias ≡ a)
unfolding get_by_alias
get_by_alias-some nodes a n h =
    let (i, e) = find?-some (λ m. m.alias == a) n nodes h in (i, ==→≡ _ _ e)

pub get_by_id-some :
    (nodes : List GNodeSql) (a : Text) (n : GNodeSql)
    → get_by_id nodes a ≡ some n
    → In n nodes × (n.id ≡ a)
unfolding get_by_id
get_by_id-some nodes a n h = let (i, e) = find?-some (λ m. m.id == a) n nodes h in (i, ==→≡ _ _ e)

pub get_by_alias_unique :
    (nodes : List GNodeSql) (n : GNodeSql) {a : Text}
    → UniqueBy (λ m. m.alias) nodes
    → In n nodes
    → n.alias ≡ a
    → get_by_alias nodes a ≡ some n
unfolding get_by_alias
get_by_alias_unique nodes n u i e = rw (← e) (find?_unique (λ m. m.alias) nodes n u i)

pub get_by_id_unique :
    (nodes : List GNodeSql) (n : GNodeSql) {a : Text}
    → UniqueBy (λ m. m.id) nodes
    → In n nodes
    → n.id ≡ a
    → get_by_id nodes a ≡ some n
unfolding get_by_id
get_by_id_unique nodes n u i e = rw (← e) (find?_unique (λ m. m.id) nodes n u i)

-- An active node that is no root has an active parent.
abbrev pub HasActiveParent : List GNodeSql → GNodeSql → Type 0
HasActiveParent nodes n =
    n.status ≡ active
    → is_forest_root n.alias ≡ false
    → (p : GNodeSql) × In p nodes × (p.alias ≡ parent_alias n.alias) × (p.status ≡ active)

parent_violations-eq_nil :
    (n : GNodeSql) (o : Option GNodeSql)
    → parent_violations n o ≡ []
    → (p : GNodeSql) × (o ≡ some p) × (p.status ≡ active)
unfolding parent_violations
parent_violations-eq_nil n none h = cc
parent_violations-eq_nil n (some p) h = (p, refl, ground (arith, (is_active_iff p.status).0))

pub parent_closed_at_sound :
    (nodes : List GNodeSql) (n : GNodeSql) → parent_closed_at nodes n ≡ [] → HasActiveParent nodes n
unfolding parent_closed_at
parent_closed_at_sound nodes n h a r =
    let (p, found, live) =
      parent_violations-eq_nil n (get_by_alias nodes (parent_alias n.alias))
        (rw ((is_active_iff n.status).1 a, r) at h) in
    let (i, e) = get_by_alias-some nodes _ p found in (p, i, e, live)

pub parent_closed_at_complete :
    (nodes : List GNodeSql) (n : GNodeSql)
    → UniqueBy (λ m. m.alias) nodes
    → HasActiveParent nodes n
    → parent_closed_at nodes n ≡ []
unfolding parent_closed_at
parent_closed_at_complete nodes n u h = elim (Bool-cases (is_active n.status)) [
  | inl a ↦ elim (Bool-cases (is_forest_root n.alias)) [
    | inl r ↦ rw (a, r)
    | inr r ↦
        let (p, i, e, live) = h ((is_active_iff n.status).0 a) r in
        rw (a, r, get_by_alias_unique nodes p u i e)
          (unfold parent_violations in rw ((is_active_iff p.status).1 live))
  ]
  | inr a ↦ rw a
]

-- A node lives in the universe that the instance serves.
pub scope_at_iff : (u : Text) (n : GNodeSql) → (scope_at u n ≡ []) ↔ (universe_of n.alias ≡ u)
unfolding scope_at
scope_at_iff u n = (λ h. ground arith, λ h. ground arith)

-- An active physical node holds a position that has a row.
abbrev pub HasPosition : List Text → GNodeSql → Type 0
HasPosition ids n =
    n.status ≡ active
    → n.base_class ≢ logical
    → (id : Text) × (n.position_point_id ≡ some id) × In id ids

contains_iff : (ids : List Text) (a : Text) → (contains ids a ≡ true) ↔ In a ids
contains_iff [] a = (λ h. cc, λ h. absurd h)
contains_iff (x ∷ ids) a =
    (λ h. ground (arith, (contains_iff ids a).0), λ h. ground (arith, (contains_iff ids a).1))

lacks_position_iff :
    (o : Option Text) (ids : List Text)
    → (lacks_position o ids ≡ false) ↔ ((id : Text) × (o ≡ some id) × In id ids)
unfolding lacks_position
lacks_position_iff none ids = (λ h. cc, λ (id, e, i). cc)
lacks_position_iff (some a) ids = (
  λ h. (a, refl, (contains_iff ids a).0 (ground arith)),
  λ (id, e, i). ground (arith, (contains_iff ids id).1 i),
)

pub position_at_iff :
    (ids : List Text) (n : GNodeSql) → (position_at ids n ≡ []) ↔ HasPosition ids n
unfolding position_at
position_at_iff ids n = (
  λ h a p.
      (lacks_position_iff n.position_point_id ids).0 (ground (arith, (is_active_iff n.status).1 a)),
  λ h. elim (Bool-cases (is_active n.status)) [
    | inl a ↦ elim (class_eq.dec n.base_class logical) [
      | yes e ↦ ground arith
      | no e ↦ ground (
        arith,
        (lacks_position_iff n.position_point_id ids).1 (h ((is_active_iff n.status).0 a) e),
      )
    ]
    | inr a ↦ rw a
  ],
)
