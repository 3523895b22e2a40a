-- ===== src/Tests/Captures.antt =====
-- A small capture: a root is created, refused the second time, and broadcast.
use grid_node_registry.Prelude.{
  ◌+◌, ◌-◌, text_leb, length, false, ◌≢◌, ℕ, ◌≤◌, suc, ◌≡◌, ◌↔◌, refl, sym, subst, arith, true,
  Bool, not, ◌&&◌, all, sort, none, some, List, [], ◌∷◌, ◌++◌, Text, codes, text_eq, nat_eq, ◌==◌,
  In, if◌then◌else◌,
}
use grid_node_registry.Text.{take}
use grid_node_registry.Sema.Enums.{market_maker, pending}
use grid_node_registry.Sema.Format.{is_utc_milliseconds}
use grid_node_registry.Sema.Messages.{GNodeForest, GNodeCreateCmd}
use grid_node_registry.Registry.Models.{Tables, empty_tables}
use grid_node_registry.Registry.Session.{ok}
use grid_node_registry.Authority.Consistency.{IsRegistry}
use grid_node_registry.Authority.Reachability.{create, apply}
use grid_node_registry.Rebuild.{
  CaptureObject, ObjectStore, RebuildReport, empty_report, create_type, parse_object_key,
  capture_objects, capture_leb, select_objects, base_name, parse_parts,
}
use grid_node_registry.Rebuild.Replay.{
  Payload, command, broadcast, broken, at_time, replay, rebuild, state_eq,
}
use grid_node_registry.Rebuild.Names.{
  Lacks-of, IsPart, dash, object_name, under, slash, parse_object_key-object_name, Numeral, digit,
  more, Counts, numbered,
}
use grid_node_registry.Rebuild.Eventstore.{
  S3Eventstore, day_prefix, list_keys, days_from, listed_days, Ends, listed_days-Ends,
}
use grid_node_registry.Rebuild.Order.{InOrder, IsListed, capture_objects-InOrder}
use grid_node_registry.Rebuild.Stream.{Captured, done, applied, heard}
use grid_node_registry.Rebuild.Restore.{AllProven, payloads_of, rebuild-Captured, replay-Captured}
use grid_node_registry.Rebuild.Replay.{Replay, check_broadcast}
use grid_node_registry.Rebuild.Checkpoints.{SameButTime, IsNext, check_broadcast-verdict}
use grid_node_registry.Authority.{get_forest, forest_rows, add_unseen}
use grid_node_registry.Rebuild.Report.{rebuild-IsRegistry}
use grid_node_registry.Rebuild.Tally.{Tallies, replay-Tallies}
use grid_node_registry.Cli.{occupied, run_rebuild}
use grid_node_registry.Cli.Rebuilding.{Audited, run_rebuild-wipe}
use grid_node_registry.Tests.Samples.{tables, world, config, node_gt, id_isone}
use grid_node_registry.Tests.Runs.{run}

abbrev create_root : GNodeCreateCmd
create_root = record {
  new_node = node_gt id_isone (codes "d1.isone") market_maker (codes "MarketMaker") pending none;
  proof = none;
}

abbrev time : ℕ
time = 1700000000000

abbrev root_forest : GNodeForest
root_forest = record {
  roots = codes "d1.isone" ∷ [];
  nodes = create_root.new_node ∷ [];
  edges = [];
  send_time_ms = time;
  proof = none;
}

abbrev decode : List ℕ → Payload
decode bytes = elim (parse_object_key bytes) [
  | none ↦ broken
  | some o ↦
      if o.type_name == create_type then command (create create_root) else broadcast root_forest
]

-- The broadcast is listed before the command.
abbrev store : ObjectStore
store = record {
  list_keys =
      codes "w/eventstore/20231114/d1.gnr-g.node.forest-1700000000005-d1.ear.json"
      ∷ codes "d1.admin-g.node.create.cmd-1700000000001-d1.ear.2.json"
      ∷ codes "d1.admin-hb-d1.json"
      ∷ [];
  read = λ key. key;
}

abbrev with_root : Tables
with_root = (apply (at_time world time) config (create create_root) empty_tables).1

root_is_created :
    (apply (at_time world time) config (create create_root) empty_tables).0 ≡ ok root_forest
unfolding run
root_is_created = refl

abbrev heard_payloads : List Payload
heard_payloads = command (create create_root) ∷ broadcast root_forest ∷ []

timed : is_utc_milliseconds time ≡ true
unfolding run
timed = refl

payloads_heard : payloads_of decode store ≡ heard_payloads
unfolding run capture_objects sort select_objects parse_object_key base_name parse_parts take
    capture_leb
payloads_heard = refl

root_is_read : (get_forest (at_time world time) root_forest.roots with_root).0 ≡ ok root_forest
unfolding run get_forest forest_rows add_unseen sort text_leb
root_is_read = refl

captured : Captured world config empty_tables heard_payloads with_root 1 0
captured =
    applied time (create create_root) root_forest empty_tables with_root _ 0 0 timed root_is_created
      (heard time root_forest root_forest with_root with_root [] 0 0 timed root_is_read
        (done with_root))

proven : AllProven world config heard_payloads
unfolding text_eq
proven = (refl, tt)

rebuild-Captured_example :
    (report : RebuildReport) × (rebuild world (λ _. time) decode config.universe store empty_tables
      ≡ (ok report, with_root))
    × (report.applied ≡ 1)
    × (report.refused ≡ 0)
rebuild-Captured_example =
    rebuild-Captured world (λ _. time) config decode store with_root 1 0 (λ _. timed)
      (subst (λ p. Captured world config empty_tables p with_root 1 0) (sym payloads_heard)
        captured)
      (subst (AllProven world config) (sym payloads_heard) proven)

-- A broadcast that carries a proof, which no forest of the registry does.
abbrev no_produced : Replay
no_produced = record { report = empty_report; produced = [] }

abbrev proven_forest : GNodeForest
proven_forest = record root_forest { proof = some [] }

check_broadcast-verdict_example :
    (IsNext [] proven_forest
      → check_broadcast (at_time world time) 1 proven_forest no_produced with_root
        ≡ (ok no_produced, with_root))
    × ((IsNext [] proven_forest → ⊥)
        → SameButTime root_forest proven_forest
        → check_broadcast (at_time world time) 1 proven_forest no_produced with_root
          ≡ (ok no_produced, with_root))
    × ((IsNext [] proven_forest → ⊥)
        → (SameButTime root_forest proven_forest → ⊥)
        → check_broadcast (at_time world time) 1 proven_forest no_produced with_root ≡ (
          ok (record no_produced {
            report = record empty_report { mismatches = (1, proven_forest.roots) ∷ [] };
          }),
          with_root,
        ))
check_broadcast-verdict_example =
    check_broadcast-verdict (at_time world time) 1 proven_forest root_forest no_produced with_root
      root_is_read

rebuild-IsRegistry_example :
    IsRegistry config.universe
      (rebuild world (λ _. time) decode config.universe store empty_tables).1
rebuild-IsRegistry_example = rebuild-IsRegistry world (λ _. time) decode config.universe store

capture_objects-InOrder_example :
    InOrder (capture_objects store empty_report).0
    × ((o : CaptureObject)
        → In o (capture_objects store empty_report).0 ↔ IsListed store.list_keys o)
capture_objects-InOrder_example = capture_objects-InOrder store empty_report

abbrev key : Text
key =
    codes "w/eventstore/20231114"
    ++ slash ∷ object_name (codes "hw1.admin") create_type (codes "1709") (codes "hw1.ear.12")

seventeen : Numeral (codes "17") 17
seventeen = more (codes "1") 1 7 (digit 1 (omega arith)) (omega arith)

time_read : Numeral (codes "1709") 1709
time_read = more (codes "170") 170 9 (more (codes "17") 17 0 seventeen (omega arith)) (omega arith)

twelfth : Counts (codes "hw1.ear.12") 12
twelfth =
    numbered (codes "hw1.ear") (codes "12") 12
      (more (codes "1") 1 2 (digit 1 (omega arith)) (omega arith))

-- No character is a dash or a slash.
abbrev plain : Text → Bool
plain s = all (λ d. not (d == dash)) s && all (λ d. not (d == slash)) s

IsPart-of : (s : Text) → plain s ≡ true → IsPart s
IsPart-of s h = (Lacks-of dash s (ground arith), Lacks-of slash s (ground arith))

parse_object_key-object_name_example :
    parse_object_key key
    ≡ some (record { key = key; type_name = create_type; persisted_ms = 1709; seq = 12 })
unfolding nat_eq
parse_object_key-object_name_example =
    parse_object_key-object_name (codes "hw1.admin") create_type (codes "1709") (codes "hw1.ear.12")
      1709 12 (IsPart-of (codes "hw1.admin") refl) (IsPart-of create_type refl) time_read
      (IsPart-of (codes "hw1.ear.12") refl) twelfth key (under (codes "w/eventstore/20231114"))

returned :
    (report : RebuildReport) × (replay world
        (λ _. time)
        config
        heard_payloads
        empty_report
        empty_tables
      ≡ (ok report, with_root))
    × (report.applied ≡ empty_report.applied + 1)
    × (report.refused ≡ empty_report.refused + 0)
returned =
    replay-Captured world (λ _. time) config (λ _. timed) empty_tables with_root heard_payloads 1 0
      empty_report captured

replay-Tallies_example : Tallies heard_payloads empty_report returned.0
replay-Tallies_example =
    replay-Tallies world (λ _. time) config heard_payloads empty_tables with_root empty_report
      returned.0 returned.1

-- A bucket with one page for each day, of one key.
abbrev bucket : S3Eventstore
bucket = record { world_instance = codes "d1"; start = 738472; end = 738474 }

abbrev day_text : ℕ → Text
day_text day = day ∷ []

abbrev pages : Text → List (List Text)
pages prefix = ((prefix ++ codes "x.json") ∷ []) ∷ []

listed_days-Ends_example :
    Ends bucket.end bucket.start (days_from 9 bucket.start bucket.end)
    × (days_from 9 bucket.start bucket.end ≡ listed_days bucket)
    × (length (listed_days bucket) ≡ suc bucket.end - bucket.start)
    × ((key : Text)
        → In key (list_keys day_text pages bucket) ↔ (
            (day : ℕ) × ((bucket.start ≤ day) × (day ≤ bucket.end))
            × ((page : List Text) × In page (pages (day_prefix day_text pages bucket day))
                × In key page)))
listed_days-Ends_example = listed_days-Ends day_text pages bucket 9 (omega arith)

run_rebuild-wipe_example :
    (tables.g_nodes ≢ []
      → run_rebuild world (λ _. time) decode config.universe store false tables
        ≡ (ok (occupied (length tables.g_nodes)), tables))
    × Audited world
        (λ _. time)
        decode
        config.universe
        store
        (rebuild world (λ _. time) decode config.universe store empty_tables)
        (run_rebuild world (λ _. time) decode config.universe store true tables)
    × IsRegistry config.universe
        (rebuild world (λ _. time) decode config.universe store empty_tables).1
run_rebuild-wipe_example = run_rebuild-wipe world (λ _. time) decode config.universe store tables
