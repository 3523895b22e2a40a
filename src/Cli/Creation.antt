-- ===== src/Cli/Creation.antt =====
-- The node that `gnr create` (src/gnr/cli.py) builds.
use grid_node_registry.Prelude.{
  ◌≡◌, ◌≢◌, refl, sym, ap, ◌∙◌, inl, inr, arith, Bool, true, false, not, ◌&&◌, Option, none, [],
  ◌∷◌, Text, text_eq, option_eq, ◌==◌, ==→≡, ==_refl, contains, find?, In, In-filter, find?-some,
  find?-none, any-In, In-map_inv, In-filter_of, ◌⊎◌, Bool-cases, Option-cases,
}
use grid_node_registry.Sema.Enums.{
  BaseGNodeClass, logical, pending, classes, class_eq, status_eq, class_value, class_values,
}
use grid_node_registry.Sema.GNode.{GNodeGt, check_axiom_1, check_axiom_2, check_axiom_3}
use grid_node_registry.Sema.Messages.{validate_create}
use grid_node_registry.Cli.{physical, infer_base, class_of, CreateArgs, created_node}

physical-check_axiom_1 :
    (n : GNodeGt)
    → n.base_class ≢ logical
    → class_value n.base_class ≡ n.g_node_class
    → check_axiom_1 n ≡ true
unfolding check_axiom_1
physical-check_axiom_1 n h e = elim (Bool-cases (n.base_class == logical)) [
  | inl p ↦ absurd (h (==→≡ n.base_class logical p))
  | inr p ↦ rw (p, sym e, ==_refl (class_value n.base_class)) refl
]

not_among :
    (s : Text)
    → ((c : BaseGNodeClass) → In c physical → class_value c ≢ s)
    → s ≢ class_value logical
    → contains class_values s ≡ false
unfolding class_values physical class_eq
not_among s h k = elim (Bool-cases (contains class_values s)) [
  | inr e ↦ e
  | inl e ↦
      let (x, i, p) = any-In (λ x. s == x) class_values e in
      let (c, j, q) = In-map_inv class_value x classes i in absurd (clash c j (==→≡ s x p ∙ q))
]
  where
    clash : (c : BaseGNodeClass) → In c classes → s ≡ class_value c → ⊥
    clash c j q = elim (Bool-cases (c == logical)) [
      | inl p ↦ k (q ∙ ap class_value (==→≡ c logical p))
      | inr p ↦ h c (In-filter_of (λ c. not (c == logical)) c classes j (rw p refl)) (sym q)
    ]

implied : (b c : Bool) → (c ≡ true) ⊎ (b ≡ false) → not (b && not c) ≡ true
implied b c h = ground arith

logical-check_axiom_1 :
    (n : GNodeGt)
    → n.base_class ≡ logical
    → ((c : BaseGNodeClass) → In c physical → class_value c ≢ n.g_node_class)
    → check_axiom_1 n ≡ true
unfolding check_axiom_1
logical-check_axiom_1 n e h =
    rw (e, ==_refl logical)
      (implied (contains class_values n.g_node_class) (n.g_node_class == class_value logical) cases)
  where
    differs : (s : Text) → (s == class_value logical) ≡ false → s ≢ class_value logical
    differs s p e = ground arith

    cases :
        ((n.g_node_class == class_value logical) ≡ true)
        ⊎ (contains class_values n.g_node_class ≡ false)
    cases = elim (Bool-cases (n.g_node_class == class_value logical)) [
      | inl p ↦ inl p
      | inr p ↦ inr (not_among n.g_node_class h (differs n.g_node_class p))
    ]

infer_base-cases :
    (s : Text)
    → ((infer_base s ≢ logical) × (class_value (infer_base s) ≡ s))
      ⊎ ((infer_base s ≡ logical) × ((c : BaseGNodeClass) → In c physical → class_value c ≢ s))
unfolding infer_base physical class_eq
infer_base-cases s = elim (Option-cases (find? (λ c. class_value c == s) physical)) [
  | inl e ↦ inr (rw e refl, λ c i p. missing c i p e)
  | inr (c, e) ↦
      let (i, p) = find?-some (λ c. class_value c == s) c physical e in
      let (j, q) = In-filter (λ c. not (c == logical)) c classes i in
      inl (rw e (λ f. is_logical c f q), rw e (==→≡ (class_value c) s p))
]
  where
    missing :
        (c : BaseGNodeClass)
        → In c physical
        → class_value c ≡ s
        → find? (λ c. class_value c == s) physical ≡ none
        → ⊥
    missing c i p e =
        let f : (class_value c == s) ≡ false =
          find?-none (λ c. class_value c == s) c physical e i in
        let g : (class_value c == s) ≡ true = rw p (==_refl s) in cc (f, g)

    is_logical : (c : BaseGNodeClass) → c ≡ logical → not (c == logical) ≡ true → ⊥
    is_logical c f q = let r : (c == logical) ≡ true = rw f (==_refl logical) in ground arith

infer_base-check_axiom_1 :
    (n : GNodeGt) → n.base_class ≡ infer_base n.g_node_class → check_axiom_1 n ≡ true
infer_base-check_axiom_1 n e = elim (infer_base-cases n.g_node_class) [
  | inl (p, q) ↦ physical-check_axiom_1 n (λ f. p (sym e ∙ f)) (ap class_value e ∙ q)
  | inr (p, q) ↦ logical-check_axiom_1 n (e ∙ p) q
]

-- No class at all is that of a Logical node.
infer_base-class_of : (s : Text) → infer_base s ≡ infer_base (class_of s)
unfolding class_of infer_base physical class_eq class_value text_eq
infer_base-class_of [] = refl
infer_base-class_of (c ∷ s) = refl

pending-check_axiom_2 : (n : GNodeGt) → n.status ≡ pending → check_axiom_2 n ≡ true
unfolding check_axiom_2 status_eq
pending-check_axiom_2 n e = rw e refl

new-check_axiom_3 : (n : GNodeGt) → n.prev_alias ≡ none → check_axiom_3 n ≡ true
unfolding check_axiom_3 option_eq
new-check_axiom_3 n e = rw e refl

module _ (fresh_id : Text) (args : CreateArgs) (proof : Option Text) where
  -- Whatever the arguments, the node that `gnr create` builds satisfies the axioms on its class, its
  -- position and its previous alias, and its command passes the check of a locationless creation.
  pub created_node-axioms :
      (check_axiom_1 (created_node fresh_id args) ≡ true)
      × (check_axiom_2 (created_node fresh_id args) ≡ true)
      × (check_axiom_3 (created_node fresh_id args) ≡ true)
      × (validate_create (record { new_node = created_node fresh_id args; proof = proof }) ≡ none)
  unfolding created_node validate_create option_eq
  created_node-axioms = (
    infer_base-check_axiom_1 (created_node fresh_id args) (infer_base-class_of args.g_node_class),
    pending-check_axiom_2 (created_node fresh_id args) refl,
    new-check_axiom_3 (created_node fresh_id args) refl,
    refl,
  )
