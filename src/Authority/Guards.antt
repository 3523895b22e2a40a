-- ===== src/Authority/Guards.antt =====
-- The guards of `apply_create` in src/gnr/db/authority.py (lines 296-329), against what they ask.
use grid_node_registry.Prelude.{
  ◌≡◌, refl, ◌↔◌, ◌⊎◌, inl, inr, arith, Bool, true, false, not, Option, none, some, Bool-cases, [],
  ◌∷◌, Text, text_eq, ◌==◌, ==→≡, is_some, contains,
}
use grid_node_registry.Alias.{universe_of, parent_alias, is_forest_root}
use grid_node_registry.Sema.Enums.{
  GNodeStatus, pending, active, suspended, permanently_deactivated, status_eq,
}
use grid_node_registry.Sema.GNode.{GNodeGt}
use grid_node_registry.Registry.Models.{Tables, GNodeSql, AliasAssignmentSql}
use grid_node_registry.Registry.Session.{
  ok, Error, Session, pure, raise, gets, raise_if, ◌>>=◌, get_node, query_alias, get_claim,
}
use grid_node_registry.Authority.{World, Config}
use grid_node_registry.Authority.Create.{check_claim, check_parent_row, check_parent, create_guards}

-- The row of a parent under which a node may be created.
pub record IsLiveParent (alias : Text) (t : Tables) : Type 0 where
  pub row : GNodeSql
  pub at_alias : query_alias alias t ≡ some row
  pub live : (row.status ≡ pending) ⊎ (row.status ≡ active)

-- No other id owns the alias.
abbrev pub FreeFor : Text → Option AliasAssignmentSql → Type 0
FreeFor id none = Unit
FreeFor id (some claim) = claim.g_node_id ≡ id

pub record MayCreate (universe : Text) (node : GNodeGt) (t : Tables) : Type 0 where
  pub scoped : universe_of node.alias ≡ universe
  pub fresh : get_node node.g_node_id t ≡ none
  pub free : FreeFor node.g_node_id (get_claim node.alias t)
  pub parent : (is_forest_root node.alias ≡ true) ⊎ IsLiveParent (parent_alias node.alias) t

abbrev Passes : Session (Unit {0}) → Tables → Type 0
Passes m t = m t ≡ (ok tt, t)

raise_if_iff :
    (b : Bool) (e : Error) (k : Session (Unit {0})) (t : Tables)
    → Passes (raise_if b e >>= λ _. k) t ↔ ((b ≡ false) × Passes k t)
unfolding ◌>>=◌
raise_if_iff true e k t = (λ h. ground arith, λ (f, h). ground arith)
raise_if_iff false e k t = (λ h. (refl, h), λ (f, h). h)

check_claim_iff :
    (node : GNodeGt) (o : Option AliasAssignmentSql) (k : Session (Unit {0})) (t : Tables)
    → Passes (check_claim node o >>= λ _. k) t ↔ (FreeFor node.g_node_id o × Passes k t)
unfolding check_claim ◌>>=◌
check_claim_iff node none k t = (λ h. (tt, h), λ (f, h). h)
check_claim_iff node (some claim) k t = elim (Bool-cases (claim.g_node_id == node.g_node_id)) [
  | inl same ↦ (λ h. (==→≡ _ _ same, rw same at h), λ (f, h). rw same h)
  | inr other ↦ (λ h. ground arith, λ (f, h). ground arith)
]

may_iff :
    (s : GNodeStatus)
    → (not (contains (pending ∷ active ∷ []) s) ≡ false) ↔ ((s ≡ pending) ⊎ (s ≡ active))
unfolding status_eq
may_iff pending = (λ h. inl refl, λ h. refl)
may_iff active = (λ h. inr refl, λ h. refl)
may_iff suspended = (λ h. ground arith, λ h. elim h [ inl e ↦ ground arith | inr e ↦ ground arith ])
may_iff permanently_deactivated =
    (λ h. ground arith, λ h. elim h [ inl e ↦ ground arith | inr e ↦ ground arith ])

raise_if-Passes : (b : Bool) (e : Error) (t : Tables) → Passes (raise_if b e) t ↔ (b ≡ false)
unfolding raise_if raise pure
raise_if-Passes true e t = (λ h. ground arith, λ f. ground arith)
raise_if-Passes false e t = (λ h. refl, λ f. refl)

row_of : (o : Option GNodeSql) (a b : GNodeSql) → o ≡ some a → o ≡ some b → a ≡ b
row_of o a b e f = ground arith

missing : (o : Option GNodeSql) (a : GNodeSql) → o ≡ none → o ≡ some a → ⊥
missing o a e f = ground arith

same_iff : (a b : Text) → (not (a == b) ≡ false) ↔ (a ≡ b)
same_iff a b = (λ h. ground arith, λ e. ground arith)

is_none_iff : (o : Option GNodeSql) → (is_some o ≡ false) ↔ (o ≡ none)
is_none_iff none = (λ h. refl, λ e. refl)
is_none_iff (some a) = (λ h. ground arith, λ e. ground arith)

gets_iff :
    {A : Type 0} (g : Tables → A) (f : A → Session (Unit {0})) (t : Tables)
    → Passes (gets g >>= f) t ↔ Passes (f (g t)) t
unfolding ◌>>=◌
gets_iff g f t = (λ h. h, λ h. h)

check_parent_row_iff :
    (node : GNodeGt) (o : Option GNodeSql) (t : Tables)
    → query_alias (parent_alias node.alias) t ≡ o
    → Passes (check_parent_row node o) t ↔ IsLiveParent (parent_alias node.alias) t
unfolding check_parent_row
check_parent_row_iff node none t e =
    (λ h. unfold raise in ground arith, λ p. absurd (missing _ p.row e p.at_alias))
check_parent_row_iff node (some row) t e = (
  λ h. record {
    row = row;
    at_alias = e;
    live = (may_iff row.status).0 ((raise_if-Passes _ _ t).0 h);
  },
  λ p.
      (raise_if-Passes _ _ t).1
        (rw (row_of _ row p.row e p.at_alias) ((may_iff p.row.status).1 p.live)),
)

check_parent_iff :
    (node : GNodeGt) (t : Tables)
    → Passes (check_parent node) t
      ↔ ((is_forest_root node.alias ≡ true) ⊎ IsLiveParent (parent_alias node.alias) t)
unfolding check_parent ◌>>=◌
check_parent_iff node t = elim (Bool-cases (is_forest_root node.alias)) [
  | inl root ↦ (λ h. inl root, λ p. rw root refl)
  | inr child ↦
      let (f, g) = check_parent_row_iff node _ t refl in
      (
        λ h. inr (f (rw child at h)),
        λ p. elim p [ inl root ↦ ground arith | inr q ↦ rw child (g q) ],
      )
]

module _ (w : World) (c : Config) where
  -- The guards of a create command pass exactly when the alias lies in the universe, no node has the id,
  -- no other id owns the alias, and the node is a root or its parent is pending or active.
  pub create_guards_iff :
      (node : GNodeGt) (t : Tables)
      → (create_guards w c node t ≡ (ok tt, t)) ↔ MayCreate c.universe node t
  unfolding create_guards
  create_guards_iff node t = (
    λ h.
        let (u, h1) = (raise_if_iff _ _ _ t).0 h in
        let (i, h2) = (raise_if_iff _ _ _ t).0 ((gets_iff _ _ t).0 h1) in
        let (f, h3) =
          (check_claim_iff node (get_claim node.alias t) _ t).0 ((gets_iff _ _ t).0 h2) in
        record {
          scoped = (same_iff _ _).0 u;
          fresh = (is_none_iff _).0 i;
          free = f;
          parent = (check_parent_iff node t).0 h3;
        },
    λ m. (raise_if_iff _ _ _ t).1 (
      (same_iff _ _).1 m.scoped,
      (gets_iff _ _ t).1 (
          (raise_if_iff _ _ _ t).1 (
            (is_none_iff _).1 m.fresh,
            (gets_iff _ _ t).1 (
                (check_claim_iff node (get_claim node.alias t) _ t).1
                  (m.free, (check_parent_iff node t).1 m.parent)),
          )),
    ),
  )
