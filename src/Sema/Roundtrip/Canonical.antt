-- ===== src/Sema/Roundtrip/Canonical.antt =====
-- The harness of src/gnr/sema/roundtrip.py on the samples that src/gnr/sema/types itself writes.
use grid_node_registry.Prelude.{
  ℕ, ◌≡◌, refl, inl, inr, ap, ◌∙◌, Bool, true, false, Option, some, List, [], ◌∷◌, Text, codes, In,
  In-sort, text_leb, text_eq, ==_refl, sort,
}
use grid_node_registry.Sema.Casing.{Json, text, object}
use grid_node_registry.Sema.Codec.{SemaClass, get_field, key_of, is_version, strict}
use grid_node_registry.Sema.Codec.Discovery.{get_current_types}
use grid_node_registry.Sema.Wire.{
  Message, connectivity_edge_gt, g_node_cmd_ack, g_node_cmd_nack, g_node_create_cmd, g_node_forest,
  g_node_forest_request, g_node_gt, g_node_reparent_cmd, position_point_gt, fields_of, to_dict,
}
use grid_node_registry.Sema.Runtime.{exported_types, default_codec, type_name_of, version_of}
use grid_node_registry.Sema.Runtime.Closed.{IsValid, decode-to_dict}
use grid_node_registry.Sema.Roundtrip.{
  passed, check_instance, check_upgrade, check_class, check_sample, check_samples, current_class,
  run_roundtrip, main, value_dict,
}

-- The class of an instance is the current one, and its dict names it.
abbrev IsCurrent : Message → Type 0
IsCurrent m =
    (c : SemaClass Message) × (get_current_types exported_types (type_name_of m) ≡ some c)
    × (c.version_value ≡ some (version_of m))
    × (get_field (codes "TypeName") (fields_of m) ≡ some (text (type_name_of m)))
    × (get_field (codes "Version") (fields_of m) ≡ some (text (version_of m)))

current : (m : Message) → IsCurrent m
unfolding get_current_types exported_types type_name_of version_of get_field fields_of
current (connectivity_edge_gt e) = (_, refl, refl, refl, refl)
current (g_node_cmd_ack a) = (_, refl, refl, refl, refl)
current (g_node_cmd_nack a) = (_, refl, refl, refl, refl)
current (g_node_create_cmd cmd) = (_, refl, refl, refl, refl)
current (g_node_forest f) = (_, refl, refl, refl, refl)
current (g_node_forest_request r) = (_, refl, refl, refl, refl)
current (g_node_gt n) = (_, refl, refl, refl, refl)
current (g_node_reparent_cmd cmd) = (_, refl, refl, refl, refl)
current (position_point_gt p) = (_, refl, refl, refl, refl)

-- A sample that is the dict of a valid instance.
abbrev pub Canonical : Text × Option Json → Type 0
Canonical s = (m : Message) × IsValid m × (s.1 ≡ some (to_dict m))

module _ (is_alpha : ℕ → Bool) (int : Text → Option ℕ) (same : Json → Json → Bool)
    (same_refl : (d : Json) → same d d ≡ true) where
  upgrade_passes :
      (m : Message) → check_upgrade (default_codec is_alpha int) to_dict same (fields_of m) ≡ passed
  unfolding check_upgrade default_codec is_version
  upgrade_passes m =
      let (c, registered, version, n, w) = current m in
      ap
        (λ o.
          check_class (default_codec is_alpha int) to_dict same (fields_of m)
            (current_class (default_codec is_alpha int) to_dict same (key_of o)))
        n
      ∙ ap (check_class (default_codec is_alpha int) to_dict same (fields_of m)) registered
      ∙ rw (w, version, ==_refl (version_of m)) refl

  sample_passes :
      (m : Message)
      → IsValid m
      → check_sample (default_codec is_alpha int) to_dict same (some (to_dict m)) ≡ passed
  unfolding check_sample to_dict value_dict
  sample_passes m valid =
      ap (check_instance (default_codec is_alpha int) to_dict same (fields_of m))
        (decode-to_dict is_alpha int strict false m valid)
      ∙ rw (same_refl (object (fields_of m))) (upgrade_passes m)

  samples_pass :
      (samples : List (Text × Option Json))
      → ((s : Text × Option Json) → In s samples → Canonical s)
      → check_samples (default_codec is_alpha int) to_dict same samples ≡ some []
  unfolding check_samples
  samples_pass [] h = refl
  samples_pass ((name, o) ∷ samples) h =
      let (m, valid, e) = h (name, o) (inl refl) in
      rw (e, sample_passes m valid) (samples_pass samples (λ s i. h s (inr i)))

  -- Where the comparison of dicts is reflexive, the harness exits with 0 if each sample is the dict of a
  -- valid instance of one of the types.
  pub main-Canonical :
      (samples : List (Text × Option Json))
      → ((s : Text × Option Json) → In s samples → Canonical s)
      → main (default_codec is_alpha int) to_dict same samples ≡ some 0
  unfolding main run_roundtrip
  main-Canonical samples h =
      rw
        (samples_pass (sort (λ a b. text_leb a.0 b.0) samples)
          (λ s i. h s ((In-sort (λ a b. text_leb a.0 b.0) s samples).0 i)))
        refl
