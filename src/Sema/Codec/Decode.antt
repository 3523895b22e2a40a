-- ===== src/Sema/Codec/Decode.antt =====
-- What `SemaCodec._decode` of src/gnr/sema/codec.py returns.
use grid_node_registry.Prelude.{
  ◌≡◌, ◌↔◌, refl, subst, ◌∙◌, ap, arith, Bool, true, false, not, Option, none, some, List, Text,
  text_eq, In, In-filter, In-filter_of, Bool-cases, Option-cases, inl, inr,
}
use grid_node_registry.Sema.Casing.{
  Json, text, null, number, atom, array, object, Fields, recursively_pascal,
}
use grid_node_registry.Sema.Codec.{
  Decoded, ok, err, and_then, SemaClass, Vocabulary, Key, none_key, other_key, unhashable, text_key,
  strict, SemaValue, instance_of, degraded_of, class_from_dict, to_latest, find_old, decode,
  decode_named, decode_version, decode_old, decode_fields, unsupported, is_known, known_of,
  unknown_of, valid_instance, is_version,
}
use grid_node_registry.Sema.Codec.Upgrade.{IsCurrent, KeepsType, to_latest-IsCurrent}

module _ {I : Type 0} (v : Vocabulary I) where
  -- What pydantic promises: the type name and the version of an instance are the constants of the class
  -- that made it.
  abbrev pub HasConstants : Type 0
  HasConstants =
      (name : Text) (c : SemaClass I) (d : Json) (i : I)
      → v.registry name ≡ some c
      → c.model_validate d ≡ some i
      → (v.type_name_of i ≡ name) × (v.version_of i ≡ c.version_value)

  abbrev IsGood : Decoded (SemaValue I) → Type 0
  IsGood (ok (instance_of i)) = IsCurrent v i
  IsGood (ok (degraded_of d)) = ⊥
  IsGood (err e) = Unit

  class_from_dict-constants :
      HasConstants
      → (name : Text) (c : SemaClass I) (d : Json) (i : I) → v.registry name ≡ some c
      → class_from_dict v c d ≡ ok i
      → (v.type_name_of i ≡ name) × (v.version_of i ≡ c.version_value)
  unfolding class_from_dict
  class_from_dict-constants h name c d i r e = elim (Bool-cases (recursively_pascal v.is_alpha d)) [
    | inl p ↦ valid (c.model_validate d) refl (rw p at e)
    | inr p ↦ cc (rw p at e)
  ]
    where
      valid :
          (o : Option I)
          → c.model_validate d ≡ o
          → valid_instance v o ≡ ok i
          → (v.type_name_of i ≡ name) × (v.version_of i ≡ c.version_value)
      valid none m k = cc k
      valid (some j) m k = let same : j ≡ i = cc k in h name c d i r (m ∙ ap some same)

  module _ (h : HasConstants) (keeps : KeepsType v) where
    fast-IsGood :
        (name : Text) (c : SemaClass I) (r : Decoded I)
        → v.registry name ≡ some c
        → ((i : I) → r ≡ ok i → (v.type_name_of i ≡ name) × (v.version_of i ≡ c.version_value))
        → IsGood (and_then r (λ i. ok (instance_of i)))
    fast-IsGood name c (ok i) r k = record {
      class = c;
      registered = ap v.registry (k i refl).0 ∙ r;
      current = (k i refl).1;
    }
    fast-IsGood name c (err e) r k = tt

    latest-IsGood :
        (r : Decoded I)
        → ((i : I) → r ≡ ok i → IsCurrent v i)
        → IsGood (and_then r (λ i. ok (instance_of i)))
    latest-IsGood (ok i) k = k i refl
    latest-IsGood (err e) k = tt

    old-IsGood :
        (r : Decoded I)
        → IsGood (and_then r (λ i. and_then (to_latest v i) (λ j. ok (instance_of j))))
    old-IsGood (ok i) = latest-IsGood (to_latest v i) λ j e. to_latest-IsCurrent v keeps i j e
    old-IsGood (err e) = tt

    found-IsGood :
        (name : Text) (version : Key) (fields : Fields) (c : SemaClass I)
        (r : Decoded (Option (SemaClass I)))
        → IsGood (
            and_then r (λ o. elim o [
              | none ↦ unsupported v strict c name version fields
              | some old ↦ decode_old v true fields old
            ]))
    found-IsGood name version fields c (ok none) = tt
    found-IsGood name version fields c (ok (some old)) =
        old-IsGood (class_from_dict v old (object fields))
    found-IsGood name version fields c (err e) = tt

    version-IsGood :
        (name : Text) (version : Key) (fields : Fields) (c : SemaClass I)
        → v.registry name ≡ some c
        → IsGood (decode_version v strict true name version fields c)
    unfolding decode_version
    version-IsGood name version fields c r =
        elim (Bool-cases (is_version version c.version_value)) [
          | inl e ↦ rw e (
              fast-IsGood name c (class_from_dict v c (object fields)) r
                λ i k. class_from_dict-constants h name c (object fields) i r k)
          | inr e ↦ rw e (found-IsGood name version fields c (find_old v name version))
        ]

    named-IsGood :
        (name version : Key) (fields : Fields)
        → IsGood (decode_named v strict true name version fields)
    unfolding decode_named
    named-IsGood none_key version fields = tt
    named-IsGood other_key version fields = tt
    named-IsGood unhashable version fields = tt
    named-IsGood (text_key name) version fields = elim (Option-cases (v.registry name)) [
      | inl e ↦ rw (e, decode_named) tt
      | inr (c, e) ↦ rw (e, decode_named) (version-IsGood name version fields c e)
    ]

    fields-IsGood :
        (fields : Fields) (o : Option Json) → IsGood (decode_fields v strict true fields o)
    fields-IsGood fields none = tt
    fields-IsGood fields (some name) =
        elim (Bool-cases (recursively_pascal v.is_alpha (object fields))) [
          | inl e ↦ rw e (named-IsGood _ _ fields)
          | inr e ↦ rw e tt
        ]

    decode-IsGood : (d : Json) → IsGood (decode v strict true d)
    unfolding decode
    decode-IsGood (object fields) = fields-IsGood fields _
    decode-IsGood (text s) = tt
    decode-IsGood null = tt
    decode-IsGood (number n) = tt
    decode-IsGood atom = tt
    decode-IsGood (array xs) = tt

  -- The strict decoding with upgrades returns, where it returns, an instance of the version that is
  -- registered now for its type, and never a degraded value.
  pub decode-IsCurrent :
      HasConstants
      → KeepsType v
      → (d : Json) (x : SemaValue I) → decode v strict true d ≡ ok x
      → (i : I) × (x ≡ instance_of i) × IsCurrent v i
  decode-IsCurrent h keeps d (instance_of i) e = (i, refl, subst IsGood e (decode-IsGood h keeps d))
  decode-IsCurrent h keeps d (degraded_of x) e = absurd (subst IsGood e (decode-IsGood h keeps d))

-- ---- the fields of a degraded value

module _ {I : Type 0} (c : SemaClass I) where
  -- Each field of a degraded value is either among the known ones, whose name is a field of the class,
  -- or among the unknown ones, whose name is not.
  pub known_of-unknown_of :
      (fields : List (Text × Json)) (x : Text × Json)
      → (In x (known_of c fields) ↔ (In x fields × (is_known c x.0 ≡ true)))
        × (In x (unknown_of c fields) ↔ (In x fields × (is_known c x.0 ≡ false)))
  unfolding known_of unknown_of
  known_of-unknown_of fields x = (
    (
      λ i. In-filter (λ item. is_known c item.0) x fields i,
      λ (i, p). In-filter_of (λ item. is_known c item.0) x fields i p,
    ),
    (
      λ i.
          let (j, p) = In-filter (λ item. not (is_known c item.0)) x fields i in
          (j, not_true (is_known c x.0) p),
      λ (i, p). In-filter_of (λ item. not (is_known c item.0)) x fields i (rw p refl),
    ),
  )
    where
      not_true : (b : Bool) → not b ≡ true → b ≡ false
      not_true b h = ground arith
