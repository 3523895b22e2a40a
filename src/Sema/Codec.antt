-- ===== src/Sema/Codec.antt =====
-- src/gnr/sema/codec.py, `SemaCodec._decode` and `from_dict`, and `SemaType.from_dict` and `to_latest` of
-- src/gnr/sema/base.py. The classes, their validation by pydantic and their upgrades are parameters.
pub mod Upgrade
pub mod Decode
pub mod Discovery
use grid_node_registry.Prelude.{
  ℕ, zero, suc, ◌-◌, Bool, true, false, not, ◌&&◌, ◌||◌, Option, none, some, List, [], ◌∷◌, ◌++◌,
  map, flat_map, Text, codes, text_eq, option_eq, ◌==◌, contains, filter, ltb, find?, if◌then◌else◌,
}
use grid_node_registry.Sema.Casing.{
  Json, text, null, number, atom, array, object, Fields, end, field, recursively_pascal,
  snake_to_pascal, pascal_to_snake,
}

pub data SemaError : Type 0 where
  not_a_dict missing_type_name not_pascal unknown_type unsupported_version validation_failed
        unexpected_type unhashable_key invalid_json :
      SemaError
  no_registry_entry version_missing invalid_version version_ahead upgrade_failed
        upgrade_loop_detected upgrade_requires_context :
      SemaError

pub data Decoded (A : Type 0) : Type 0 where
  ok : A → Decoded A
  err : SemaError → Decoded A

abbrev pub and_then : {A B : Type 0} → Decoded A → (A → Decoded B) → Decoded B
and_then (ok a) f = f a
and_then (err e) f = err e

-- A class of instances `I`: `model_validate`, where `none` is a ValidationError.
pub record SemaClass (I : Type 0) : Type 0 where
  pub version_value : Option Text
  pub model_validate : Json → Option I
  pub model_fields : List (Text × Option Text)

-- What `upgrade` does: it returns, asks for a context that the instance lacks, or raises another error.
pub data Upgraded (I : Type 0) : Type 0 where
  upgraded : I → Upgraded I
  needs_context not_upgraded : Upgraded I

-- The two registries, and what the codec asks of an instance. `int` is that of Python on a version.
pub record Vocabulary (I : Type 0) : Type 0 where
  pub is_alpha : ℕ → Bool
  pub int : Text → Option ℕ
  pub registry : Text → Option (SemaClass I)
  pub old_versions : Text → Option (List (Text × SemaClass I))
  pub type_name_of : I → Text
  pub version_of : I → Option Text
  pub upgrade : I → Upgraded I

-- What a value is as the key of a dict.
pub data Key : Type 0 where
  none_key other_key unhashable : Key
  text_key : Text → Key

abbrev pub key_of : Option Json → Key
key_of none = none_key
key_of (some (text s)) = text_key s
key_of (some null) = none_key
key_of (some (number n)) = other_key
key_of (some atom) = other_key
key_of (some _) = unhashable

-- d.get(name); the keys of a dict are unique
unfoldable pub get_field : Text → Fields → Option Json
unfolding text_eq
get_field name end = none
get_field name (field key value fields) =
    let rest = get_field name fields in if key == name then some value else rest

pub data Mode : Type 0 where
  strict degraded : Mode

pub record DegradedSemaType : Type 0 where
  pub type_name : Key
  pub version : Key
  pub raw : Fields
  pub known_fields : List (Text × Json)
  pub unknown_fields : List (Text × Json)

pub data SemaValue (I : Type 0) : Type 0 where
  instance_of : I → SemaValue I
  degraded_of : DegradedSemaType → SemaValue I

abbrev pub items : Fields → List (Text × Json)
items end = []
items (field key value fields) = (key, value) ∷ items fields

-- version == current_version
unfoldable pub is_version : Key → Option Text → Bool
unfolding text_eq
is_version none_key none = true
is_version (text_key v) (some u) = v == u
is_version _ _ = false

abbrev pub aliases_of : Option Text → List Text
aliases_of none = []
aliases_of (some alias) = alias ∷ []

module _ {I : Type 0} where
  unfoldable pub valid_fields : SemaClass I → List Text
  valid_fields c =
      flat_map (λ (name, alias). snake_to_pascal name ∷ name ∷ aliases_of alias) c.model_fields

  unfoldable pub is_known : SemaClass I → Text → Bool
  unfolding text_eq valid_fields
  is_known c key = contains (valid_fields c) key || contains (valid_fields c) (pascal_to_snake key)

  -- The loop over the items, which fills two dicts.
  unfoldable pub known_of : SemaClass I → List (Text × Json) → List (Text × Json)
  unfolding is_known
  known_of c fields = filter (λ item. is_known c item.0) fields

  unfoldable pub unknown_of : SemaClass I → List (Text × Json) → List (Text × Json)
  unfolding is_known
  unknown_of c fields = filter (λ item. not (is_known c item.0)) fields

module _ {I : Type 0} (v : Vocabulary I) where
  abbrev pub valid_instance : Option I → Decoded I
  valid_instance none = err validation_failed
  valid_instance (some i) = ok i

  -- SemaType.from_dict
  unfoldable pub class_from_dict : SemaClass I → Json → Decoded I
  unfolding recursively_pascal
  class_from_dict c data_ =
      if not (recursively_pascal v.is_alpha data_)
      then err not_pascal
      else valid_instance (c.model_validate data_)

  abbrev pub after_upgrade : Upgraded I → (I → Decoded I) → Decoded I
  after_upgrade (upgraded j) loop = loop j
  after_upgrade needs_context loop = err upgrade_requires_context
  after_upgrade not_upgraded loop = err upgrade_failed

  -- The loop of `to_latest`, with the steps that are left.
  unfoldable pub upgrade_loop : Option Text → ℕ → I → Decoded I
  unfolding option_eq text_eq
  upgrade_loop latest zero i = if v.version_of i == latest then ok i else err upgrade_loop_detected
  upgrade_loop latest (suc steps) i =
      if v.version_of i == latest
      then ok i
      else after_upgrade (v.upgrade i) (upgrade_loop latest steps)

  -- current_version_int > latest_version_int, and the steps between them
  abbrev pub upgrade_between : Text → I → Option ℕ → Option ℕ → Decoded I
  upgrade_between latest i (some current) (some last) =
      if ltb last current then err version_ahead else upgrade_loop (some latest) (last - current) i
  upgrade_between latest i _ _ = err invalid_version

  abbrev pub upgrade_versions : I → Option Text → Option Text → Decoded I
  upgrade_versions i (some current) (some latest) =
      upgrade_between latest i (v.int current) (v.int latest)
  upgrade_versions i _ _ = err version_missing

  abbrev pub upgrade_to : I → Option (SemaClass I) → Decoded I
  upgrade_to i none = err no_registry_entry
  upgrade_to i (some c) = upgrade_versions i (v.version_of i) c.version_value

  unfoldable pub to_latest : I → Decoded I
  unfolding upgrade_loop
  to_latest i = upgrade_to i (v.registry (v.type_name_of i))

  -- type_name in old_versions and version in old_versions[type_name]
  unfoldable pub old_among : Key → List (Text × SemaClass I) → Decoded (Option (SemaClass I))
  unfolding text_eq
  old_among (text_key u) classes = elim (find? (λ (w, c). w == u) classes) [
    | none ↦ ok none
    | some (w, c) ↦ ok (some c)
  ]
  old_among unhashable classes = err unhashable_key
  old_among _ classes = ok none

  unfoldable pub find_old : Text → Key → Decoded (Option (SemaClass I))
  unfolding old_among
  find_old type_name version = elim (v.old_versions type_name) [
    | none ↦ ok none
    | some classes ↦ old_among version classes
  ]

  abbrev pub degrade : SemaClass I → Text → Key → Fields → SemaValue I
  degrade c type_name version fields = degraded_of (record {
    type_name = text_key type_name;
    version = version;
    raw = fields;
    known_fields = known_of c (items fields);
    unknown_fields = unknown_of c (items fields);
  })

  abbrev pub unsupported : Mode → SemaClass I → Text → Key → Fields → Decoded (SemaValue I)
  unsupported strict c type_name version fields = err unsupported_version
  unsupported degraded c type_name version fields = ok (degrade c type_name version fields)

  abbrev pub decode_old : Bool → Fields → SemaClass I → Decoded (SemaValue I)
  decode_old auto_upgrade fields c = and_then (class_from_dict c (object fields)) λ i.
      if auto_upgrade then and_then (to_latest i) (λ j. ok (instance_of j)) else ok (instance_of i)

  unfoldable pub decode_version :
      Mode → Bool → Text → Key → Fields → SemaClass I → Decoded (SemaValue I)
  unfolding is_version
  decode_version mode auto_upgrade type_name version fields c =
      if is_version version c.version_value
      then and_then (class_from_dict c (object fields)) (λ i. ok (instance_of i))
      else and_then (find_old type_name version) λ o. elim o [
        | none ↦ unsupported mode c type_name version fields
        | some old ↦ decode_old auto_upgrade fields old
      ]

  abbrev pub unknown : Mode → Key → Key → Fields → Decoded (SemaValue I)
  unknown strict type_name version fields = err unknown_type
  unknown degraded type_name version fields = ok (
      degraded_of (record {
        type_name = type_name;
        version = version;
        raw = fields;
        known_fields = [];
        unknown_fields = items fields;
      }))

  unfoldable pub decode_named : Mode → Bool → Key → Key → Fields → Decoded (SemaValue I)
  decode_named mode auto_upgrade (text_key name) version fields = elim (v.registry name) [
    | none ↦ unknown mode (text_key name) version fields
    | some c ↦ decode_version mode auto_upgrade name version fields c
  ]
  decode_named mode auto_upgrade unhashable version fields = err unhashable_key
  decode_named mode auto_upgrade type_name version fields = unknown mode type_name version fields

  abbrev pub decode_fields : Mode → Bool → Fields → Option Json → Decoded (SemaValue I)
  decode_fields mode auto_upgrade fields none = err missing_type_name
  decode_fields mode auto_upgrade fields (some name) =
      if not (recursively_pascal v.is_alpha (object fields))
      then err not_pascal
      else decode_named mode auto_upgrade (key_of (some name))
          (key_of (get_field (codes "Version") fields)) fields

  -- SemaCodec._decode
  unfoldable pub decode : Mode → Bool → Json → Decoded (SemaValue I)
  unfolding recursively_pascal
  decode mode auto_upgrade (object fields) =
      decode_fields mode auto_upgrade fields (get_field (codes "TypeName") fields)
  decode mode auto_upgrade _ = err not_a_dict

  -- SemaCodec.from_dict; `expect` is the test of `isinstance`
  unfoldable pub from_dict :
      Json → Mode → Bool → Option (SemaValue I → Bool) → Decoded (SemaValue I)
  from_dict data_ mode auto_upgrade none = decode mode auto_upgrade data_
  from_dict data_ mode auto_upgrade (some expect) =
      and_then (decode mode auto_upgrade data_) λ x. if expect x then ok x else err unexpected_type

  -- SemaCodec.from_bytes; `loads` is `json.loads(data.decode("utf-8"))`, `none` where one of them raises
  unfoldable pub from_bytes : (loads : List ℕ → Option Json) → List ℕ → Mode → Decoded (SemaValue I)
  from_bytes loads data_ mode = elim (loads data_) [
    | none ↦ err invalid_json
    | some d ↦ from_dict d mode true none
  ]

  -- SemaType.from_bytes of a class
  unfoldable pub class_from_bytes :
      (loads : List ℕ → Option Json) → SemaClass I → List ℕ → Decoded I
  class_from_bytes loads c data_ = elim (loads data_) [
    | none ↦ err invalid_json
    | some d ↦ class_from_dict c d
  ]
