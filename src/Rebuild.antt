-- ===== src/Rebuild.antt =====
-- src/gnr/rebuild.py: the names of captured objects, the order of a capture, and the replay of its
-- payloads. A payload is what `json.loads` and the codec make of the bytes of an object.
pub mod Names
pub mod Eventstore
pub mod Order
pub mod Checkpoints
pub mod Clock
pub mod Report
pub mod Replay
pub mod Stream
pub mod Tally
pub mod Restore
use grid_node_registry.Prelude.{
  ℕ, suc, ◌+◌, ◌*◌, ◌-◌, Bool, true, false, not, ◌&&◌, ◌||◌, Option, none, some, List, [], ◌∷◌,
  ◌++◌, map, length, Text, codes, Eq, nat_eq, text_eq, ◌==◌, ltb, all, contains, sort, text_leb,
  if◌then◌else◌,
}
use grid_node_registry.Text.{dot, ends_with, rsplit, split, take}
use grid_node_registry.Alias.{last_word}
use grid_node_registry.Sema.Format.{is_digit}
use grid_node_registry.Sema.GNode.{GNodeGt}
use grid_node_registry.Sema.Messages.{
  GNodeForest, GNodeCreateCmd, GNodeReparentCmd, ConnectivityEdgeGt,
}
use grid_node_registry.Registry.Models.{Tables}
use grid_node_registry.Registry.Session.{Result, ok, err, Error, create_error, reparent_error}
use grid_node_registry.Authority.{World, Config, get_forest}
use grid_node_registry.Authority.Create.{apply_create}
use grid_node_registry.Authority.Reparent.{apply_reparent}

-- ---- the capture

pub record CaptureObject : Type 0 where
  pub key : Text
  pub type_name : Text
  pub persisted_ms : ℕ
  pub seq : ℕ

-- s.isdigit(), of ASCII
unfoldable pub is_digits : Text → Bool
is_digits [] = false
is_digits (c ∷ s) = is_digit c && all is_digit s

-- int(s), of ASCII digits
abbrev pub digits_from : ℕ → Text → ℕ
digits_from n [] = n
digits_from n (c ∷ s) = digits_from (n * 10 + (c - b'0')) s

unfoldable pub int_of : Text → ℕ
int_of = digits_from 0

abbrev after_last : Text → Option (Text × Text) → Text
after_last s none = s
after_last s (some (_, r)) = r

-- key.rsplit("/", 1)[-1]
unfoldable pub base_name : Text → Text
base_name key = after_last key (rsplit b'/' key)

-- The arrival counter at the end of a source.
unfoldable pub seq_of : Text → ℕ
unfolding is_digits int_of
seq_of source = if is_digits (last_word source) then int_of (last_word source) else 1

unfoldable pub parse_parts : Text → List Text → Option CaptureObject
unfolding is_digits int_of
parse_parts key (from_alias ∷ type_name ∷ persisted ∷ source ∷ []) =
    if is_digits persisted
    then some (record {
      key = key;
      type_name = type_name;
      persisted_ms = int_of persisted;
      seq = seq_of source;
    })
    else none
parse_parts key _ = none

abbrev pub json_suffix : Text
json_suffix = codes ".json"

unfoldable pub parse_object_key : Text → Option CaptureObject
parse_object_key key =
    let name = base_name key in
    if ends_with name json_suffix
    then parse_parts key (split b'-' (take (length name - 5) name))
    else none

pub record ObjectStore : Type 0 where
  pub list_keys : List Text
  pub read : Text → List ℕ

-- A mismatch holds the number of the object and the roots, which its text shows.
pub record RebuildReport : Type 0 where
  pub applied : ℕ
  pub refused : ℕ
  pub checkpoints : ℕ
  pub mismatches : List (ℕ × List Text)
  pub skipped_type_names : List Text
  pub unparsed_keys : ℕ

abbrev pub empty_report : RebuildReport
empty_report = record {
  applied = 0;
  refused = 0;
  checkpoints = 0;
  mismatches = [];
  skipped_type_names = [];
  unparsed_keys = 0;
}

-- RebuildReport.ok
unfoldable pub is_ok : RebuildReport → Bool
is_ok report = elim report.mismatches [ [] ↦ true | _ ∷ _ ↦ false ]

-- set.add
unfoldable pub add_name : Text → List Text → List Text
unfolding text_eq
add_name x xs = if contains xs x then xs else xs ++ x ∷ []

abbrev pub create_type : Text
create_type = codes "g.node.create.cmd"

abbrev pub reparent_type : Text
reparent_type = codes "g.node.reparent.cmd"

abbrev pub forest_type : Text
forest_type = codes "g.node.forest"

-- REPLAY_TYPE_NAMES
abbrev pub replay_type_names : List Text
replay_type_names = create_type ∷ reparent_type ∷ forest_type ∷ []

-- The loop over the keys: the objects selected, in order of the listing, and the report.
unfoldable pub select_objects :
    List Text → List CaptureObject → RebuildReport → List CaptureObject × RebuildReport
unfolding text_eq add_name
select_objects [] selected report = (selected, report)
select_objects (key ∷ keys) selected report = elim (parse_object_key key) [
  | none ↦ select_objects keys selected (record report { unparsed_keys = suc report.unparsed_keys })
  | some o ↦
      if contains replay_type_names o.type_name
      then select_objects keys (selected ++ o ∷ []) report
      else select_objects keys selected
          (record report { skipped_type_names = add_name o.type_name report.skipped_type_names })
]

-- The order of the tuples (persisted_ms, seq, key).
unfoldable pub capture_leb : CaptureObject → CaptureObject → Bool
unfolding nat_eq
capture_leb a b =
    if a.persisted_ms == b.persisted_ms
    then (if a.seq == b.seq then text_leb a.key b.key else ltb a.seq b.seq)
    else ltb a.persisted_ms b.persisted_ms

unfoldable pub capture_objects : ObjectStore → RebuildReport → List CaptureObject × RebuildReport
capture_objects store report =
    let (selected, report') = select_objects store.list_keys [] report in
    (sort capture_leb selected, report')
