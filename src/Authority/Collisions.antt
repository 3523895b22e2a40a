-- ===== src/Authority/Collisions.antt =====
-- The collision check before a re-parent (src/gnr/db/authority.py, lines 389-419): the dict of the
-- intended aliases, and the claims that stand in its way.
use grid_node_registry.Prelude.{
  ◌≡◌, ◌↔◌, refl, sym, subst, inl, inr, arith, true, false, not, Option, none, some, Bool-cases,
  List, [], ◌∷◌, Text, text_eq, ◌==◌, In,
}
use grid_node_registry.Registry.Models.{AliasAssignmentSql}
use grid_node_registry.Authority.Reparent.{Claims, lookup, collides, collisions}

-- The dict does not give the alias of the claim to another id.
abbrev pub Allows : AliasAssignmentSql → Option Text → Type 0
Allows claim none = Unit
Allows claim (some id) = claim.g_node_id ≡ id

Allows-iff :
    (d : Claims) (claim : AliasAssignmentSql) (o : Option Text)
    → lookup claim.alias d ≡ o
    → (collides d claim ≡ false) ↔ Allows claim o
unfolding collides
Allows-iff d claim none e = (λ h. tt, λ h. rw (e, collides) refl)
Allows-iff d claim (some id) e =
    (λ h. same id (rw (e, collides) at h), λ h. rw (e, h, collides) (ground arith))
  where
    same : (id : Text) → not (claim.g_node_id == id) ≡ false → claim.g_node_id ≡ id
    same id h = ground arith

-- The collision check of a re-parent finds nothing exactly when each claim of the ledger allows the
-- intended aliases: they give its alias to its own id, or do not hold it.
pub collisions_iff :
    (d : Claims) (claims : List AliasAssignmentSql)
    → (collisions d claims ≡ [])
      ↔ ((claim : AliasAssignmentSql) → In claim claims → Allows claim (lookup claim.alias d))
unfolding collisions
collisions_iff d [] = (λ h claim i. absurd i, λ h. refl)
collisions_iff d (c ∷ claims) = elim (Bool-cases (collides d c)) [
  | inl e ↦
      (λ h. ground arith, λ h. absurd (clash _ e ((Allows-iff d c _ refl).1 (h c (inl refl)))))
  | inr e ↦ (
    λ h claim i. elim i [
      | inl p ↦ subst (λ x. Allows x (lookup x.alias d)) (sym p) ((Allows-iff d c _ refl).0 e)
      | inr j ↦ (collisions_iff d claims).0 (rw e at h) claim j
    ],
    λ h. rw e ((collisions_iff d claims).1 λ claim i. h claim (inr i)),
  )
]
  where
    clash : (b : _) → b ≡ true → b ≡ false → ⊥
    clash b e f = ground arith
