-- ===== src/Sema/Runtime/Closed.antt =====
-- `default_codec` of src/gnr/sema/codec.py decodes what `to_dict` of a valid instance gives.
use grid_node_registry.Prelude.{
  ℕ, ◌≡◌, refl, ap, ◌∙◌, true, Bool, Option, none, some, List, Text, codes, text_eq, ==_refl,
}
use grid_node_registry.Sema.Casing.{text, object, Fields, recursively_pascal}
use grid_node_registry.Sema.Codec.{
  ok, SemaClass, Vocabulary, Mode, text_key, key_of, decode_fields, get_field, is_version,
  instance_of, decode, class_from_dict, decode_named, decode_version,
}
use grid_node_registry.Sema.Codec.Discovery.{get_current_types}
use grid_node_registry.Sema.GNode.{validate}
use grid_node_registry.Sema.Messages.{
  validate_edge, validate_create, validate_reparent, validate_forest, is_request,
}
use grid_node_registry.Sema.PositionPoint.{validate_point}
use grid_node_registry.Sema.Wire.{
  Message, connectivity_edge_gt, g_node_cmd_ack, g_node_cmd_nack, g_node_create_cmd, g_node_forest,
  g_node_forest_request, g_node_gt, g_node_reparent_cmd, position_point_gt, fields_of, to_dict,
}
use grid_node_registry.Sema.Wire.Laws.{
  AllValid, node_of-node_fields, edge_of-edge_fields, create_of-create_fields,
  reparent_of-reparent_fields, forest_of-forest_fields, request_of-request_fields,
  point_of-point_fields, ack_of-ack_fields, nack_of-nack_fields,
}
use grid_node_registry.Sema.Fields.{◌>>=◌}
use grid_node_registry.Sema.Wire.Parse.{
  node_of, edge_of, create_of, reparent_of, forest_of, request_of, point_of, ack_of, nack_of,
}
use grid_node_registry.Sema.Wire.Keys.{to_dict-pascal}
use grid_node_registry.Sema.Runtime.{
  edge_names, ack_names, nack_names, create_names, forest_names, request_names, node_names,
  reparent_names, point_names, sema_class, exported_types, default_codec, type_name_of, version_of,
}

-- An instance that pydantic has accepted, with the instances in it.
abbrev pub IsValid : Message → Type 0
IsValid (connectivity_edge_gt e) = validate_edge e ≡ none
IsValid (g_node_cmd_ack a) = Unit
IsValid (g_node_cmd_nack a) = Unit
IsValid (g_node_create_cmd cmd) = (validate cmd.new_node ≡ none) × (validate_create cmd ≡ none)
IsValid (g_node_forest f) = AllValid f × (validate_forest f ≡ none)
IsValid (g_node_forest_request r) = is_request r ≡ true
IsValid (g_node_gt n) = validate n ≡ none
IsValid (g_node_reparent_cmd cmd) = (validate cmd.new_node ≡ none) × (validate_reparent cmd ≡ none)
IsValid (position_point_gt p) = validate_point p ≡ none

module _ {I : Type 0} (v : Vocabulary I) (mode : Mode) (auto_upgrade : Bool) (fields : Fields)
    (name version : Text) (c : SemaClass I) (i : I) (registered : v.registry name ≡ some c)
    (current : c.version_value ≡ some version)
    (pascal : recursively_pascal v.is_alpha (object fields) ≡ true)
    (accepted : c.model_validate (object fields) ≡ some i) where
  class_decodes : class_from_dict v c (object fields) ≡ ok i
  unfolding class_from_dict
  class_decodes = rw (pascal, accepted) refl

  version_decodes :
      decode_named v mode auto_upgrade (text_key name) (text_key version) fields
      ≡ ok (instance_of i)
  unfolding decode_named decode_version is_version class_from_dict
  version_decodes =
      rw (registered, decode_named) (rw (current, ==_refl version, class_decodes) refl)

  -- A dict of the last version of a class that accepts it is decoded to the instance.
  decode_current :
      get_field (codes "TypeName") fields ≡ some (text name)
      → get_field (codes "Version") fields ≡ some (text version)
      → decode v mode auto_upgrade (object fields) ≡ ok (instance_of i)
  unfolding decode
  decode_current n w =
      ap (decode_fields v mode auto_upgrade fields) n
      ∙ rw pascal (ap (λ k. decode_named v mode auto_upgrade (text_key name) (key_of k) fields) w)
      ∙ version_decodes

module _ (is_alpha : ℕ → Bool) (int : Text → Option ℕ) (mode : Mode) (auto_upgrade : Bool) where
  decoded :
      {A : Type 0} (parse : Fields → Option A) (message : A → Message) (names : List Text) (a : A)
      → get_current_types exported_types (type_name_of (message a))
        ≡ some (sema_class (version_of (message a)) parse message names)
      → get_field (codes "TypeName") (fields_of (message a))
        ≡ some (text (type_name_of (message a)))
      → get_field (codes "Version") (fields_of (message a)) ≡ some (text (version_of (message a)))
      → parse (fields_of (message a)) ≡ some a
      → decode (default_codec is_alpha int) mode auto_upgrade (to_dict (message a))
        ≡ ok (instance_of (message a))
  unfolding to_dict default_codec
  decoded parse message names a registered n w accepted =
      let m = message a in
      decode_current (default_codec is_alpha int) mode auto_upgrade (fields_of m) (type_name_of m)
        (version_of m) (sema_class (version_of m) parse message names) m registered refl
        (to_dict-pascal is_alpha m) (ap (λ o. o >>= λ x. some (message x)) accepted) n w

  -- The default codec decodes the dict of a valid instance of any of the types to that instance, in each
  -- mode, with upgrades or without.
  pub decode-to_dict :
      (m : Message)
      → IsValid m
      → decode (default_codec is_alpha int) mode auto_upgrade (to_dict m) ≡ ok (instance_of m)
  unfolding get_current_types exported_types type_name_of version_of get_field fields_of
  decode-to_dict (connectivity_edge_gt e) v =
      decoded edge_of connectivity_edge_gt edge_names e refl refl refl (edge_of-edge_fields e v)
  decode-to_dict (g_node_cmd_ack a) v =
      decoded ack_of g_node_cmd_ack ack_names a refl refl refl (ack_of-ack_fields a)
  decode-to_dict (g_node_cmd_nack a) v =
      decoded nack_of g_node_cmd_nack nack_names a refl refl refl (nack_of-nack_fields a)
  decode-to_dict (g_node_create_cmd c) (v, w) =
      decoded create_of g_node_create_cmd create_names c refl refl refl
        (create_of-create_fields c v w)
  decode-to_dict (g_node_forest f) (v, w) =
      decoded forest_of g_node_forest forest_names f refl refl refl (forest_of-forest_fields f v w)
  decode-to_dict (g_node_forest_request r) v =
      decoded request_of g_node_forest_request request_names r refl refl refl
        (request_of-request_fields r v)
  decode-to_dict (g_node_gt n) v =
      decoded node_of g_node_gt node_names n refl refl refl (node_of-node_fields n v)
  decode-to_dict (g_node_reparent_cmd c) (v, w) =
      decoded reparent_of g_node_reparent_cmd reparent_names c refl refl refl
        (reparent_of-reparent_fields c v w)
  decode-to_dict (position_point_gt p) v =
      decoded point_of position_point_gt point_names p refl refl refl (point_of-point_fields p v)
