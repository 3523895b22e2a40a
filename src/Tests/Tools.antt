-- ===== src/Tests/Tools.antt =====
-- The theorems on ids, names, settings and the codec at concrete data.
use grid_node_registry.Prelude.{
  Bool, false, ℕ, zero, suc, ◌%◌, ◌≡◌, ◌↔◌, ◌⊎◌, inl, refl, sym, ap, ◌∙◌, arith, true, Option, none,
  some, List, [], ◌∷◌, ◌++◌, Text, codes, text_eq, nat_eq, ◌==◌, length, all, In, All,
  if◌then◌else◌,
}
use grid_node_registry.Text.{dot, drop}
use grid_node_registry.Text.Laws.{Lacks, drop-append}
use grid_node_registry.Sema.Format.{is_word, is_uuid4_str}
use grid_node_registry.Sema.Casing.{
  Json, text, object, Fields, end, field, pascal_to_snake, snake_to_pascal,
  snake_to_pascal-pascal_to_snake,
}
use grid_node_registry.Sema.Codec.{
  Vocabulary, SemaClass, instance_of, strict, ok, decode, get_field, decode_named, decode_version,
  find_old, class_from_dict, to_latest, upgraded,
}
use grid_node_registry.Sema.Roundtrip.{main}
use grid_node_registry.Sema.Roundtrip.Sound.{IsStable, main-IsStable}
use grid_node_registry.Sema.GNode.{check_axiom_1, check_axiom_2, check_axiom_3}
use grid_node_registry.Sema.Messages.{validate_create}
use grid_node_registry.Cli.{CreateArgs, created_node, foreign_nodes, seeded, run_seed_dev}
use grid_node_registry.Cli.Seed.{IsOwn, aliases, run_seed_dev-wipe}
use grid_node_registry.Cli.Creation.{created_node-axioms}
use grid_node_registry.Registry.Models.{Tables, empty_tables, row_of_gt}
use grid_node_registry.Registry.Validate.{validate_registry}
use grid_node_registry.Registry.Session
use grid_node_registry.DevUniverse.{
  seed_dev_universe, build_dev_universe, dev_g_node_id_for, dev_universe,
}
use grid_node_registry.DevUniverse.Clean.{seeded_tables}
use grid_node_registry.DevUniverse.Run.{TellsApart, seed_dev_universe-clean}
use grid_node_registry.Settings.{check_universe, check_universe_iff}
use grid_node_registry.DisplayName.{default_display_name, title, default_display_name-house}
use grid_node_registry.Ids.{edge_id}
use grid_node_registry.Ids.Format.{IsByte, edge_id-is_uuid4_str}
use grid_node_registry.Rebuild.Names.{Lacks-of}

abbrev copies : ℕ → ℕ → List ℕ
copies zero b = []
copies (suc n) b = b ∷ copies n b

copies-length : (n b : ℕ) → length (copies n b) ≡ n
copies-length zero b = refl
copies-length (suc n) b = cc (copies-length n b)

copies-All : (n b : ℕ) → IsByte b → All IsByte (copies n b)
copies-All zero b h = tt
copies-All (suc n) b h = (h, copies-All n b h)

-- 32 bytes that depend on the length of the text.
abbrev digest : List ℕ → List ℕ
digest bytes = copies 32 (length bytes % 256)

digest_bytes : (bytes : List ℕ) → (length (digest bytes) ≡ 32) × All IsByte (digest bytes)
digest_bytes bytes =
    (copies-length 32 (length bytes % 256), copies-All 32 (length bytes % 256) (omega arith))

edge_id-is_uuid4_str_example : is_uuid4_str (edge_id digest (λ s. s) (codes "a") (codes "b")) ≡ true
edge_id-is_uuid4_str_example =
    edge_id-is_uuid4_str digest (λ s. s) (codes "a") (codes "b") digest_bytes

abbrev h : ℕ
h = b'h'

check_universe_iff_example :
    (check_universe (h ∷ codes "w1") ≡ none)
    ↔ (((h ≡ b'd') ⊎ (h ≡ b'h')) × (all is_word (codes "w1") ≡ true))
check_universe_iff_example = check_universe_iff h (codes "w1")

Lacks-dot : Lacks dot (codes "beech") × Lacks dot (codes "ta")
unfolding nat_eq
Lacks-dot = (Lacks-of dot (codes "beech") refl, Lacks-of dot (codes "ta") refl)

default_display_name-house_example :
    (default_display_name
        (codes "d1.keene" ++ dot ∷ (codes "beech" ++ dot ∷ codes "ta"))
        (codes "TerminalAsset")
      ≡ title (codes "beech"))
    × (default_display_name
          (codes "d1.keene" ++ dot ∷ (codes "beech" ++ dot ∷ codes "ta"))
          (codes "Scada")
        ≡ title (codes "beech") ++ codes " Scada")
    × (default_display_name (codes "d1.keene" ++ dot ∷ codes "beech") (codes "LeafTransactiveNode")
        ≡ title (codes "beech") ++ codes " LTN")
default_display_name-house_example =
    default_display_name-house (codes "d1.keene") (codes "beech") (codes "ta") Lacks-dot.0
      Lacks-dot.1

snake_to_pascal-pascal_to_snake_example :
    snake_to_pascal (pascal_to_snake (codes "GNodeId")) ≡ codes "GNodeId"
snake_to_pascal-pascal_to_snake_example =
    snake_to_pascal-pascal_to_snake b'G' (codes "NodeId") refl refl

-- ---- a vocabulary of one type, `n`, whose version is a text of as many characters as its number

abbrev mark : ℕ → Text
mark zero = []
mark (suc n) = b'v' ∷ mark n

abbrev current_class : SemaClass ℕ
current_class = record {
  version_value = some (mark 2);
  model_validate = λ d. some 2;
  model_fields = [];
}

abbrev old_class : SemaClass ℕ
old_class = record {
  version_value = some (mark 0);
  model_validate = λ d. some 0;
  model_fields = [];
}

unfoldable number : Text → Option ℕ
unfolding text_eq
number u = if u == mark (length u) then some (length u) else none

unfoldable classes : Text → Option (SemaClass ℕ)
unfolding text_eq
classes name = if name == codes "n" then some current_class else none

abbrev vocabulary : Vocabulary ℕ
vocabulary = record {
  is_alpha = λ c. true;
  int = number;
  registry = classes;
  old_versions = λ name. some ((mark 0, old_class) ∷ []);
  type_name_of = λ i. codes "n";
  version_of = λ i. some (mark i);
  upgrade = λ i. upgraded (suc i);
}

abbrev sample : Json
sample =
    object
      (field (codes "TypeName") (text (codes "n")) (field (codes "Version") (text (mark 0)) end))

sample_decodes : decode vocabulary strict true sample ≡ ok (instance_of 2)
unfolding number classes decode get_field decode_named decode_version find_old class_from_dict
    to_latest
sample_decodes = refl

-- ---- gnr create

abbrev args : CreateArgs
args = record {
  alias = codes "d1.isone.keene.beech.scada";
  g_node_class = codes "Scada";
  g_node_id = none;
  display_name = none;
}

created_node-axioms_example :
    (check_axiom_1 (created_node (codes "id") args) ≡ true)
    × (check_axiom_2 (created_node (codes "id") args) ≡ true)
    × (check_axiom_3 (created_node (codes "id") args) ≡ true)
    × (validate_create (record { new_node = created_node (codes "id") args; proof = none }) ≡ none)
created_node-axioms_example = created_node-axioms (codes "id") args none

-- ---- the development universe, whose ids are here the seeds themselves

abbrev seed_prefix : Text
seed_prefix = codes "gnr-det-id/dev-universe-gnode/"

tells_apart : TellsApart (λ s. s)
unfolding dev_g_node_id_for
tells_apart a b i j e =
    sym (drop-append seed_prefix a.alias)
    ∙ ap (drop (length seed_prefix)) e
    ∙ drop-append seed_prefix b.alias

seed_dev_universe-clean_example :
    (seed_dev_universe (λ s. s) true empty_tables
      ≡ (Session.ok (build_dev_universe (λ s. s)), seeded_tables (λ s. s) empty_tables))
    × (validate_registry (seeded_tables (λ s. s) empty_tables) dev_universe ≡ [])
seed_dev_universe-clean_example = seed_dev_universe-clean (λ s. s) empty_tables tells_apart

-- A registry with one node, of another universe.
abbrev foreign_tables : Tables
foreign_tables = record empty_tables {
  g_nodes = row_of_gt (created_node (codes "id") (record args { alias = codes "h.keene" })) ∷ [];
}

run_seed_dev-wipe_example :
    (All IsOwn (aliases foreign_tables)
      → run_seed_dev (λ s. s) true foreign_tables ≡ (
        Session.ok (seeded (build_dev_universe (λ s. s))),
        seeded_tables (λ s. s) foreign_tables,
      ))
    × ((a : Text)
        → In a (aliases foreign_tables)
        → (IsOwn a → ⊥)
        → (foreign : List Text) × (run_seed_dev (λ s. s) true foreign_tables
            ≡ (Session.ok (foreign_nodes foreign), foreign_tables))
          × ((b : Text) → In b foreign ↔ (In b (aliases foreign_tables) × (IsOwn b → ⊥))))
run_seed_dev-wipe_example = run_seed_dev-wipe (λ s. s) foreign_tables tells_apart

-- ---- the round trip of one sample, of the last version

abbrev encoded : ℕ → Json
encoded i = sample

-- A comparison by the names of the types.
unfoldable named : Option Json → Option Json → Bool
unfolding text_eq
named (some (text a)) (some (text b)) = a == b
named _ _ = false

unfoldable same_name : Json → Json → Bool
unfolding named get_field
same_name (object a) (object b) =
    named (get_field (codes "TypeName") a) (get_field (codes "TypeName") b)
same_name _ _ = false

abbrev samples : List (Text × Option Json)
samples = (codes "n.json", some sample) ∷ []

harness_passes : main vocabulary encoded same_name samples ≡ some 0
unfolding number classes decode get_field decode_named decode_version find_old class_from_dict
    to_latest same_name main
harness_passes = refl

main-IsStable_example :
    (fields : Fields) × (some sample ≡ some (object fields))
    × IsStable vocabulary encoded same_name fields
main-IsStable_example =
    main-IsStable vocabulary encoded same_name samples harness_passes (codes "n.json", some sample)
      (inl refl)
