-- ===== src/Sema/GNode.antt =====
-- src/gnr/sema/types/g_node_gt.py: the type `g.node.gt`, its fields and its six axioms. A check that
-- raises is `false`; `type_name` and `version` are constants and are not fields here.
pub mod Axioms
use grid_node_registry.Prelude.{
  ℕ, Bool, true, false, not, ◌&&◌, ◌||◌, Option, none, some, [], ◌∷◌, Text, codes, text_eq,
  option_eq, nat_eq, ◌==◌, any, contains, length, leb, ltb, if◌then◌else◌,
}
use grid_node_registry.Text.{dot, ends_with, split}
use grid_node_registry.Sema.Enums.{
  BaseGNodeClass, GNodeStatus, active, logical, class_eq, status_eq, class_value, class_values,
}
use grid_node_registry.Sema.Format.{is_left_right_dot, is_uuid4_str}

pub record GNodeGt : Type 0 where
  pub g_node_id : Text
  pub alias : Text
  pub base_class : BaseGNodeClass
  pub g_node_class : Text
  pub status : GNodeStatus
  pub prev_alias : Option Text
  pub position_point_id : Option Text
  pub display_name : Option Text

-- An optional field, when present, has the format.
abbrev pub if_present : (Text → Bool) → Option Text → Bool
if_present p none = true
if_present p (some v) = p v

-- char.isspace()
abbrev pub is_space : ℕ → Bool
is_space c =
    (leb 9 c && leb c 13)
    || (leb 28 c && leb c 32)
    || c == 133
    || c == 160
    || c == 5760
    || (leb 8192 c && leb c 8202)
    || (leb 8232 c && leb c 8233)
    || c == 8239
    || c == 8287
    || c == 12288

-- `a != b` on Booleans, negated
abbrev agree : Bool → Bool → Bool
agree true b = b
agree false b = not b

module _ (n : GNodeGt) where
  open n use {g_node_id, alias, base_class, g_node_class, status, prev_alias, position_point_id}

  -- the annotated types of the fields
  unfoldable pub check_fields : Bool
  check_fields =
      is_uuid4_str g_node_id
      && is_left_right_dot alias
      && if_present is_left_right_dot prev_alias
      && if_present is_uuid4_str position_point_id

  unfoldable pub check_axiom_1 : Bool
  unfolding class_eq text_eq class_values
  check_axiom_1 =
      if not (base_class == logical)
      then g_node_class == class_value base_class
      else not (contains class_values g_node_class && not (g_node_class == class_value logical))

  unfoldable pub check_axiom_2 : Bool
  unfolding class_eq status_eq option_eq
  check_axiom_2 = not (status == active && not (base_class == logical) && position_point_id == none)

  unfoldable pub check_axiom_3 : Bool
  unfolding text_eq option_eq
  check_axiom_3 = not (prev_alias == some alias)

  unfoldable pub check_axiom_4 : Bool
  unfolding text_eq nat_eq
  check_axiom_4 = not (g_node_class == []) && not (any is_space g_node_class)

  unfoldable pub check_axiom_5 : Bool
  unfolding text_eq ends_with
  check_axiom_5 =
      agree (g_node_class == codes "TerminalAsset") (ends_with alias (codes ".ta"))
      && agree (g_node_class == codes "Scada") (ends_with alias (codes ".scada"))

  unfoldable pub check_axiom_6 : Bool
  unfolding split
  check_axiom_6 =
      not (ltb (length (split dot alias)) 2)
      && if_present (λ a. not (ltb (length (split dot a)) 2)) prev_alias

-- Why a model is refused: a field, or the first axiom that fails.
pub data Invalid : Type 0 where
  field_format : Invalid
  axiom_failed : ℕ → Invalid

abbrev first_failure : Bool → Invalid → Option Invalid → Option Invalid
first_failure ok e rest = if ok then rest else some e

-- The validation of a new instance, `none` where it is accepted.
unfoldable pub validate : GNodeGt → Option Invalid
validate n = first_failure (check_fields n) field_format (
    first_failure (check_axiom_1 n) (axiom_failed 1) (
      first_failure (check_axiom_2 n) (axiom_failed 2) (
        first_failure (check_axiom_3 n) (axiom_failed 3) (
          first_failure (check_axiom_4 n) (axiom_failed 4) (
            first_failure (check_axiom_5 n) (axiom_failed 5)
              (first_failure (check_axiom_6 n) (axiom_failed 6) none))))))
