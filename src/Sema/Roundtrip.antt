-- ===== src/Sema/Roundtrip.antt =====
-- src/gnr/sema/roundtrip.py: the harness that decodes each sample and encodes it again. A sample is its
-- name and what `json.loads` makes of its text, `none` where it raises. `to_dict` of an instance and the
-- comparison of two dicts, which does not regard the order of their keys, are parameters.
pub mod Sound
pub mod Canonical
use grid_node_registry.Prelude.{
  ℕ, Bool, true, false, not, Option, none, some, List, [], ◌∷◌, Text, codes, sort, text_leb,
  if◌then◌else◌,
}
use grid_node_registry.Sema.Casing.{Json, text, null, atom, array, object, Fields}
use grid_node_registry.Sema.Codec.{
  SemaError, upgrade_requires_context, Decoded, ok, err, SemaClass, Vocabulary, Key, none_key,
  other_key, unhashable, text_key, key_of, get_field, is_version, strict, SemaValue, instance_of,
  degraded_of, decode,
}

-- The reasons of a `RoundTripFailure`.
pub data Reason : Type 0 where
  not_json reencoding_differs : Reason
  decode_failed upgrade_failed : SemaError → Reason

-- `escaped` is an exception that `check_sample` does not catch.
pub data Outcome : Type 0 where
  passed escaped : Outcome
  failed : Reason → Outcome

abbrev pub Failures : Type 0
Failures = List (Text × Reason)

module _ {I : Type 0} (v : Vocabulary I) (to_dict : I → Json) (same : Json → Json → Bool) where
  unfoldable pub value_dict : SemaValue I → Json
  value_dict (instance_of i) = to_dict i
  value_dict (degraded_of d) = object d.raw

  -- Only a missing context may stop an upgrade.
  unfoldable pub upgrade_outcome : Decoded (SemaValue I) → Outcome
  upgrade_outcome (ok x) = passed
  upgrade_outcome (err upgrade_requires_context) = passed
  upgrade_outcome (err e) = failed (upgrade_failed e)

  abbrev pub current_class : Key → Option (SemaClass I)
  current_class (text_key name) = v.registry name
  current_class _ = none

  abbrev pub check_class : Fields → Option (SemaClass I) → Outcome
  check_class fields none = passed
  check_class fields (some c) =
      if is_version (key_of (get_field (codes "Version") fields)) c.version_value
      then passed
      else upgrade_outcome (decode v strict true (object fields))

  unfoldable pub check_upgrade : Fields → Outcome
  unfolding upgrade_outcome
  check_upgrade fields =
      check_class fields (current_class (key_of (get_field (codes "TypeName") fields)))

  abbrev pub check_instance : Fields → Decoded (SemaValue I) → Outcome
  check_instance fields (err e) = failed (decode_failed e)
  check_instance fields (ok x) =
      if not (same (value_dict x) (object fields))
      then failed reencoding_differs
      else check_upgrade fields

  unfoldable pub check_sample : Option Json → Outcome
  unfolding check_upgrade value_dict
  check_sample none = failed not_json
  check_sample (some (object fields)) =
      check_instance fields (decode v strict false (object fields))
  check_sample (some _) = escaped

  -- failures.append(…)
  abbrev pub with_outcome : Text → Outcome → Option Failures → Option Failures
  with_outcome name escaped rest = none
  with_outcome name passed rest = rest
  with_outcome name (failed reason) none = none
  with_outcome name (failed reason) (some failures) = some ((name, reason) ∷ failures)

  unfoldable pub check_samples : List (Text × Option Json) → Option Failures
  unfolding check_sample
  check_samples [] = some []
  check_samples ((name, data_) ∷ samples) =
      with_outcome name (check_sample data_) (check_samples samples)

  -- `none` where an exception escapes.
  unfoldable pub run_roundtrip : List (Text × Option Json) → Option Failures
  unfolding check_samples sort text_leb
  run_roundtrip samples = check_samples (sort (λ a b. text_leb a.0 b.0) samples)

  -- The exit code.
  abbrev pub exit_code : Option Failures → Option ℕ
  exit_code none = none
  exit_code (some []) = some 0
  exit_code (some (f ∷ fs)) = some 1

  unfoldable pub main : List (Text × Option Json) → Option ℕ
  unfolding run_roundtrip
  main samples = exit_code (run_roundtrip samples)
