-- ===== src/Sema/GNode/Axioms.antt =====
-- What the validation of a `g.node.gt` guarantees.
use grid_node_registry.Prelude.{
  ℕ, suc, ◌≡◌, ◌≢◌, ◌↔◌, refl, Bool, true, false, ◌&&◌, none, some, [], arith, Text, codes, text_eq,
  option_eq, ltb, ◌==◌, zero, not, Option, any, In, inl, inr, length, ◌∷◌, some,
}
use mathlib.Core.Option.{some-injective}
use grid_node_registry.Text.{dot, count, ends_with, split}
use grid_node_registry.Text.Laws.{length-split}
use grid_node_registry.Sema.Enums.{
  BaseGNodeClass, active, logical, class_eq, status_eq, class_value, terminal_asset,
}
use grid_node_registry.Sema.Format.{is_left_right_dot, is_uuid4_str}
use grid_node_registry.Sema.GNode.{
  GNodeGt, check_fields, check_axiom_1, check_axiom_2, check_axiom_3, check_axiom_4, check_axiom_5,
  check_axiom_6, validate, agree, if_present, is_space,
}

-- The axioms as the documentation of `g.node.gt` states them.
pub record IsValid (n : GNodeGt) : Type 0 where
  pub id_format : is_uuid4_str n.g_node_id ≡ true
  pub alias_format : is_left_right_dot n.alias ≡ true
  pub prev_alias_format : (a : Text) → n.prev_alias ≡ some a → is_left_right_dot a ≡ true
  pub position_format : (p : Text) → n.position_point_id ≡ some p → is_uuid4_str p ≡ true
  pub physical_class : n.base_class ≢ logical → n.g_node_class ≡ class_value n.base_class
  pub logical_class :
      n.base_class ≡ logical → (c : BaseGNodeClass) → n.g_node_class ≡ class_value c → c ≡ logical
  pub located : n.status ≡ active → n.base_class ≢ logical → n.position_point_id ≢ none
  pub renamed : n.prev_alias ≢ some n.alias
  pub named : n.g_node_class ≢ []
  pub unspaced : (c : ℕ) → In c n.g_node_class → is_space c ≡ false
  pub asset_suffix :
      (n.g_node_class ≡ codes "TerminalAsset") ↔ (ends_with n.alias (codes ".ta") ≡ true)
  pub scada_suffix : (n.g_node_class ≡ codes "Scada") ↔ (ends_with n.alias (codes ".scada") ≡ true)
  pub body : (k : ℕ) × (count dot n.alias ≡ suc k)
  pub prev_body : (a : Text) → n.prev_alias ≡ some a → (k : ℕ) × (count dot a ≡ suc k)

-- All checks of an accepted node have passed.
checks_passed :
    (n : GNodeGt)
    → validate n ≡ none
    → (check_fields n ≡ true)
      × (check_axiom_1 n ≡ true)
      × (check_axiom_2 n ≡ true)
      × (check_axiom_3 n ≡ true)
      × (check_axiom_4 n ≡ true)
      × (check_axiom_5 n ≡ true)
      × (check_axiom_6 n ≡ true)
unfolding validate
checks_passed n h = ground arith

physical_class_of :
    (n : GNodeGt)
    → check_axiom_1 n ≡ true
    → n.base_class ≢ logical
    → n.g_node_class ≡ class_value n.base_class
unfolding check_axiom_1
physical_class_of n h e = ground arith

logical_class_of :
    (n : GNodeGt) (c : BaseGNodeClass)
    → check_axiom_1 n ≡ true
    → n.base_class ≡ logical
    → n.g_node_class ≡ class_value c
    → c ≡ logical
unfolding check_axiom_1
logical_class_of n terminal_asset h e q = ground arith
logical_class_of n c h e q = ground arith

located_of :
    (n : GNodeGt)
    → check_axiom_2 n ≡ true
    → n.status ≡ active
    → n.base_class ≢ logical
    → n.position_point_id ≢ none
unfolding check_axiom_2
located_of n h a p = ground arith

renamed_of : (n : GNodeGt) → check_axiom_3 n ≡ true → n.prev_alias ≢ some n.alias
unfolding check_axiom_3
renamed_of n h = ground arith

present :
    (p : Text → Bool) (o : Option Text) (a : Text) → if_present p o ≡ true → o ≡ some a → p a ≡ true
present p none a h e = cc e
present p (some b) a h e = rw (some-injective b a e) at h

none_any : (p : ℕ → Bool) (s : Text) → any p s ≡ false → (c : ℕ) → In c s → p c ≡ false
none_any p (d ∷ s) h c (inl e) = rw e (ground arith)
none_any p (d ∷ s) h c (inr i) = none_any p s (ground arith) c i
none_any p [] h c i = absurd i

unspaced_of :
    (n : GNodeGt) → check_axiom_4 n ≡ true → (c : ℕ) → In c n.g_node_class → is_space c ≡ false
unfolding check_axiom_4
unspaced_of n h = none_any is_space n.g_node_class (ground arith)

named_of : (n : GNodeGt) → check_axiom_4 n ≡ true → n.g_node_class ≢ []
unfolding check_axiom_4
named_of n h = ground arith

agree_iff : (a b : Text) (c : Bool) → agree (a == b) c ≡ true → (a ≡ b) ↔ (c ≡ true)
agree_iff a b c h = (λ e. ground arith, λ e. ground arith)

&&-true : (a b : Bool) → (a && b) ≡ true → (a ≡ true) × (b ≡ true)
&&-true a b h = ground arith

suffixes_of :
    (n : GNodeGt)
    → check_axiom_5 n ≡ true
    → ((n.g_node_class ≡ codes "TerminalAsset") ↔ (ends_with n.alias (codes ".ta") ≡ true))
      × ((n.g_node_class ≡ codes "Scada") ↔ (ends_with n.alias (codes ".scada") ≡ true))
unfolding check_axiom_5
suffixes_of n h = let (a, b) = &&-true _ _ h in (agree_iff _ _ _ a, agree_iff _ _ _ b)

pred_of : (k : ℕ) → ltb (suc k) 2 ≡ false → (m : ℕ) × (k ≡ suc m)
pred_of zero h = cc
pred_of (suc m) h = (m, refl)

body_of : (n : GNodeGt) → check_axiom_6 n ≡ true → (k : ℕ) × (count dot n.alias ≡ suc k)
unfolding check_axiom_6
body_of n h = pred_of _ (ground (arith, length-split dot n.alias))

prev_body_of :
    (n : GNodeGt) (a : Text)
    → check_axiom_6 n ≡ true
    → n.prev_alias ≡ some a
    → (k : ℕ) × (count dot a ≡ suc k)
unfolding check_axiom_6
prev_body_of n a h e =
    let wordy : not (ltb (length (split dot a)) 2) ≡ true =
      present _ n.prev_alias a (&&-true _ _ h).1 e in
    pred_of _ (ground (arith, length-split dot a))

-- A node that is accepted satisfies every axiom.
pub validate-IsValid : (n : GNodeGt) → validate n ≡ none → IsValid n
validate-IsValid n h =
    let (f, a1, a2, a3, a4, a5, a6) = checks_passed n h in
    record {
      id_format = unfold check_fields in ground arith;
      alias_format = unfold check_fields in ground arith;
      prev_alias_format =
          λ a. present is_left_right_dot n.prev_alias a (unfold check_fields in ground arith);
      position_format =
          λ p. present is_uuid4_str n.position_point_id p (unfold check_fields in ground arith);
      physical_class = physical_class_of n a1;
      logical_class = λ e c. logical_class_of n c a1 e;
      located = located_of n a2;
      renamed = renamed_of n a3;
      named = named_of n a4;
      unspaced = unspaced_of n a4;
      asset_suffix = (suffixes_of n a5).0;
      scada_suffix = (suffixes_of n a5).1;
      body = body_of n a6;
      prev_body = λ a. prev_body_of n a a6;
    }
