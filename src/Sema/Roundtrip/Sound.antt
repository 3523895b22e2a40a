-- ===== src/Sema/Roundtrip/Sound.antt =====
-- What it means that the harness of src/gnr/sema/roundtrip.py finds no failure.
use grid_node_registry.Prelude.{
  ◌≡◌, refl, sym, ◌∙◌, subst, ◌⊎◌, inl, inr, Bool, true, false, Option, none, some, List, [], ◌∷◌,
  Text, codes, In, In-sort, text_leb, Bool-cases, Option-cases,
}
use grid_node_registry.Sema.Casing.{
  Json, text, null, number, atom, array, object, Fields, recursively_pascal,
}
use grid_node_registry.Sema.Codec.{
  upgrade_requires_context, Decoded, ok, err, SemaClass, Vocabulary, Key, none_key, other_key,
  unhashable, text_key, key_of, get_field, is_version, strict, SemaValue, decode, decode_fields,
  decode_named, decode_version,
}
use grid_node_registry.Sema.Roundtrip.{
  Outcome, passed, escaped, failed, Failures, value_dict, check_upgrade, check_class,
  check_instance, check_sample, with_outcome, check_samples, run_roundtrip, main, exit_code,
  upgrade_outcome, current_class,
}

module _ {I : Type 0} (v : Vocabulary I) (to_dict : I → Json) (same : Json → Json → Bool) where
  -- The decoding with upgrades succeeds, or asks for a context.
  abbrev pub Upgrades : Json → Type 0
  Upgrades d =
      ((x : SemaValue I) × (decode v strict true d ≡ ok x))
      ⊎ (decode v strict true d ≡ err upgrade_requires_context)

  -- On the current version the upgrades are not asked for.
  fast_path :
      (c : SemaClass I) (name : Text) (version : Key) (fields : Fields) (b b' : Bool)
      → is_version version c.version_value ≡ true
      → decode_version v strict b name version fields c
        ≡ decode_version v strict b' name version fields c
  unfolding decode_version
  fast_path c name version fields b b' e = rw (e) refl

  upgrade_outcome-passed :
      (r : Decoded (SemaValue I))
      → upgrade_outcome v to_dict same r ≡ passed
      → ((x : SemaValue I) × (r ≡ ok x)) ⊎ (r ≡ err upgrade_requires_context)
  unfolding upgrade_outcome
  upgrade_outcome-passed (ok x) h = inl (x, refl)
  upgrade_outcome-passed (err upgrade_requires_context) h = inr refl
  upgrade_outcome-passed (err e) h = cc h

  module _ (fields : Fields) where
    abbrev version : Key
    version = key_of (get_field (codes "Version") fields)

    abbrev upgrade_decoded : Decoded (SemaValue I)
    upgrade_decoded = decode v strict true (object fields)

    named_upgrades :
        (key : Key) (x : SemaValue I)
        → decode_named v strict false key version fields ≡ ok x
        → check_class v to_dict same fields (current_class v to_dict same key) ≡ passed
        → upgrade_decoded ≡ decode_named v strict true key version fields
        → ((y : SemaValue I) × (upgrade_decoded ≡ ok y))
          ⊎ (upgrade_decoded ≡ err upgrade_requires_context)
    unfolding decode_named
    named_upgrades none_key x h k e = cc h
    named_upgrades other_key x h k e = cc h
    named_upgrades unhashable x h k e = cc h
    named_upgrades (text_key name) x h k e = elim (Option-cases (v.registry name)) [
      | inl r ↦ cc (rw (r, decode_named) at h)
      | inr (c, r) ↦ elim (Bool-cases (is_version version c.version_value)) [
        | inl same_version ↦ inl (
          x,
          e
              ∙ rw (r, decode_named) (fast_path c name version fields true false same_version)
              ∙ rw (r, decode_named) at h,
        )
        | inr old ↦ upgrade_outcome-passed upgrade_decoded (rw (r, old) at k)
      ]
    ]

    decoded-Upgrades :
        (o : Option Json) (x : SemaValue I)
        → get_field (codes "TypeName") fields ≡ o
        → decode_fields v strict false fields o ≡ ok x
        → check_class v to_dict same fields (current_class v to_dict same (key_of o)) ≡ passed
        → upgrade_decoded ≡ decode_fields v strict true fields o
        → Upgrades (object fields)
    decoded-Upgrades none x g h k e = cc h
    decoded-Upgrades (some name) x g h k e =
        elim (Bool-cases (recursively_pascal v.is_alpha (object fields))) [
          | inl p ↦ named_upgrades (key_of (some name)) x (rw p at h) k (e ∙ rw p refl)
          | inr p ↦ cc (rw p at h)
        ]

    -- What a sample that passes has shown.
    pub record IsStable : Type 0 where
      pub value : SemaValue I
      pub decoded : decode v strict false (object fields) ≡ ok value
      pub encoded : same (value_dict v to_dict same value) (object fields) ≡ true
      pub upgrades : Upgrades (object fields)

    passed-IsStable :
        (r : Decoded (SemaValue I))
        → decode v strict false (object fields) ≡ r
        → check_instance v to_dict same fields r ≡ passed
        → IsStable
    unfolding check_upgrade decode
    passed-IsStable (err e) d h = cc h
    passed-IsStable (ok x) d h =
        elim (Bool-cases (same (value_dict v to_dict same x) (object fields))) [
          | inl s ↦ record {
            value = x;
            decoded = d;
            encoded = s;
            upgrades =
                decoded-Upgrades (get_field (codes "TypeName") fields) x refl d (rw s at h) refl;
          }
          | inr s ↦ cc (rw s at h)
        ]

  abbrev pub Shown : Option Json → Type 0
  Shown o = (fields : Fields) × (o ≡ some (object fields)) × IsStable fields

  check_sample-Shown : (o : Option Json) → check_sample v to_dict same o ≡ passed → Shown o
  unfolding check_sample
  check_sample-Shown none h = cc h
  check_sample-Shown (some (object fields)) h =
      (fields, refl, passed-IsStable fields (decode v strict false (object fields)) refl h)
  check_sample-Shown (some (text s)) h = cc h
  check_sample-Shown (some null) h = cc h
  check_sample-Shown (some (number n)) h = cc h
  check_sample-Shown (some atom) h = cc h
  check_sample-Shown (some (array xs)) h = cc h

  no_failure :
      (name : Text) (r : Outcome) (rest : Option Failures)
      → with_outcome v to_dict same name r rest ≡ some []
      → (r ≡ passed) × (rest ≡ some [])
  no_failure name passed rest h = (refl, h)
  no_failure name escaped rest h = cc h
  no_failure name (failed reason) none h = cc h
  no_failure name (failed reason) (some fs) h = cc h

  check_samples-Shown :
      (samples : List (Text × Option Json))
      → check_samples v to_dict same samples ≡ some []
      → (s : Text × Option Json) → In s samples
      → Shown s.1
  unfolding check_samples
  check_samples-Shown [] h s i = absurd i
  check_samples-Shown ((name, o) ∷ samples) h s (inl e) =
      subst (λ t. Shown t.1) (sym e)
        (check_sample-Shown o (no_failure name (check_sample v to_dict same o) _ h).0)
  check_samples-Shown ((name, o) ∷ samples) h s (inr i) =
      check_samples-Shown samples (no_failure name (check_sample v to_dict same o) _ h).1 s i

  -- Where the harness exits with 0, each sample is a dict that decodes at its own version to a value
  -- whose encoding is the sample again, and whose decoding with upgrades succeeds or asks for a context.
  pub main-IsStable :
      (samples : List (Text × Option Json))
      → main v to_dict same samples ≡ some 0
      → (s : Text × Option Json) → In s samples
      → (fields : Fields) × (s.1 ≡ some (object fields)) × IsStable fields
  unfolding main run_roundtrip
  main-IsStable samples h s i =
      check_samples-Shown _ (exits _ h) s ((In-sort (λ a b. text_leb a.0 b.0) s samples).1 i)
    where
      exits : (o : Option Failures) → exit_code v to_dict same o ≡ some 0 → o ≡ some []
      exits none h = cc h
      exits (some []) h = refl
      exits (some (f ∷ fs)) h = cc h
