-- ===== src/Sema/Runtime/Constants.antt =====
-- What the default codec of src/gnr/sema/codec.py relies on: the type name and the version of an instance
-- of src/gnr/sema/types are those of its class, and no class has an upgrade.
use grid_node_registry.Prelude.{
  ℕ, Bool, ◌≡◌, refl, ap, subst, inl, inr, Option, some, List, Text, Option-cases, All, All-In,
}
use mathlib.Core.Option.{some-injective}
use grid_node_registry.Sema.Casing.{Json, Fields}
use grid_node_registry.Sema.Codec.{SemaClass}
use grid_node_registry.Sema.Codec.Discovery.{get_current_types-In}
use grid_node_registry.Sema.Codec.Upgrade.{KeepsType}
use grid_node_registry.Sema.Codec.Decode.{HasConstants}
use grid_node_registry.Sema.Wire.{
  Message, connectivity_edge_gt, g_node_cmd_ack, g_node_cmd_nack, g_node_create_cmd, g_node_forest,
  g_node_forest_request, g_node_gt, g_node_reparent_cmd, position_point_gt,
}
use grid_node_registry.Sema.Wire.Parse.{
  as_dict, edge_of, ack_of, nack_of, create_of, forest_of, request_of, node_of, reparent_of,
  point_of,
}
use grid_node_registry.Sema.Runtime.{
  edge_names, ack_names, nack_names, create_names, forest_names, request_names, node_names,
  reparent_names, point_names, sema_class, exported_types, default_codec, type_name_of, version_of,
}

-- The class makes instances of this type and version.
abbrev Makes : Text × SemaClass Message → Type 0
Makes e =
    (d : Json) (m : Message)
    → e.1.model_validate d ≡ some m
    → (type_name_of m ≡ e.0) × (some (version_of m) ≡ e.1.version_value)

made :
    {A : Type 0} (name version : Text) (parse : Fields → Option A) (message : A → Message)
    (names : List Text)
    → ((a : A) → type_name_of (message a) ≡ name)
    → ((a : A) → version_of (message a) ≡ version)
    → Makes (name, sema_class version parse message names)
made name version parse message names n v d m e = elim (Option-cases (as_dict parse d)) [
  | inl p ↦ cc (rw p at e)
  | inr (a, p) ↦
      let same : message a ≡ m = some-injective _ _ (rw p at e) in
      (
        subst (λ k. type_name_of k ≡ name) same (n a),
        ap some (subst (λ k. version_of k ≡ version) same (v a)),
      )
]

All-make : All Makes exported_types
unfolding exported_types type_name_of version_of
All-make = (
  made _ _ edge_of connectivity_edge_gt edge_names (λ a. refl) (λ a. refl),
  (
    made _ _ ack_of g_node_cmd_ack ack_names (λ a. refl) (λ a. refl),
    (
      made _ _ nack_of g_node_cmd_nack nack_names (λ a. refl) (λ a. refl),
      (
        made _ _ create_of g_node_create_cmd create_names (λ a. refl) (λ a. refl),
        (
          made _ _ forest_of g_node_forest forest_names (λ a. refl) (λ a. refl),
          (
            made _ _ request_of g_node_forest_request request_names (λ a. refl) (λ a. refl),
            (
              made _ _ node_of g_node_gt node_names (λ a. refl) (λ a. refl),
              (
                made _ _ reparent_of g_node_reparent_cmd reparent_names (λ a. refl) (λ a. refl),
                (made _ _ point_of position_point_gt point_names (λ a. refl) (λ a. refl), tt),
              ),
            ),
          ),
        ),
      ),
    ),
  ),
)

module _ (is_alpha : ℕ → Bool) (int : Text → Option ℕ) where
  pub default_codec-HasConstants : HasConstants (default_codec is_alpha int)
  unfolding default_codec
  default_codec-HasConstants name c d i r e =
      (All-In Makes (name, c) exported_types All-make (get_current_types-In exported_types name c r)
        d i e)

  pub default_codec-KeepsType : KeepsType (default_codec is_alpha int)
  unfolding default_codec
  default_codec-KeepsType i j e = cc e
