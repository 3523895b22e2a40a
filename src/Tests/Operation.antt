-- ===== src/Tests/Operation.antt =====
-- `gnr create` on the sample registry.
use grid_node_registry.Prelude.{
  Bool, true, false, all, map, UniqueBy, ◌++◌, ◌≡◌, refl, none, some, [], ◌∷◌, codes, text_eq,
  Option, List, ℕ, Text,
}
use grid_node_registry.Sema.GNode.{validate}
use grid_node_registry.Sema.Messages.{GNodeCreateCmd, validate_create}
use grid_node_registry.Registry.Session.{Refusal, ok, get_command}
use grid_node_registry.Authority.Create.{create_cmd, create_guards}
use grid_node_registry.Authority.Guards.{create_guards_iff}
use grid_node_registry.Authority.Success.{IsCreatable, created_forest}
use grid_node_registry.Authority.Reachability.{Command, create}
use grid_node_registry.Service.{
  ack, Outgoing, topology, direct, radio_channel, process_message, apply_and_broadcast, answer,
  reply,
}
use grid_node_registry.Cli.{CreateArgs, created_node, infer_base, class_of}
use grid_node_registry.Cli.Operator.{registered, run_create, command_of, verdict_of, note_messages}
use grid_node_registry.Cli.Operator.Outcome.{operation, IsTrue, process_message-IsTrue}
use grid_node_registry.Cli.Operator.Network.{run_create-decoded}
use grid_node_registry.Service.Reading.{read_command, read_command-to_dict}
use grid_node_registry.Sema.Casing.{Json}
use grid_node_registry.Sema.Wire.{g_node_create_cmd, to_dict}
use grid_node_registry.Migrations.{migrate, missing, is_known}
use grid_node_registry.Migrations.Revisions.{upgrade_lifecycle}
use grid_node_registry.Migrations.Mirror.{
  shape, metadata, lifecycle_tables, at_initial, at_lifecycle,
}
use grid_node_registry.Migrations.Backfill.{upgrade_lifecycle-mirrors}
use grid_node_registry.Tests.Samples.{world, config, tables, create_ta, id_ta}
use grid_node_registry.Tests.Facts.{sound}
use grid_node_registry.Tests.Runs.{run}

abbrev args : CreateArgs
args = record {
  alias = create_ta.new_node.alias;
  g_node_class = create_ta.new_node.g_node_class;
  g_node_id = none;
  display_name = some (codes "Beech TA");
}

abbrev no_reason : Refusal → Text
no_reason r = codes "refused"

abbrev cmd : GNodeCreateCmd
cmd = command_of (created_node id_ta args) []

-- The sample's bytes all stand for one command.
abbrev read : List ℕ → Option Command
read bytes = some (create cmd)

abbrev registrar : Text
registrar = codes "d1.gnregistrar"

abbrev market : Text
market = codes "mm"

not_logged : get_command (world.sha256_hex (world.create_bytes cmd)) tables ≡ none
unfolding get_command created_node
not_logged = refl

guarded : create_guards world config cmd.new_node tables ≡ (ok tt, tables)
unfolding run created_node class_of infer_base
guarded = refl

valid : validate cmd.new_node ≡ none
unfolding run created_node class_of infer_base
valid = refl

creatable : IsCreatable world config cmd tables
unfolding run created_node class_of infer_base
creatable = record {
  proven = refl;
  unlogged = not_logged;
  may = (create_guards_iff world config cmd.new_node tables).0 guarded;
  valid = valid;
  placed = refl;
  audited = refl;
  timed = refl;
}

abbrev sent : List Outgoing
sent =
    topology (radio_channel (create cmd)) (created_forest world config cmd tables)
    ∷ direct market registrar
        (ack (record { command_hash = world.sha256_hex (world.create_bytes cmd) }))
    ∷ []

served_with :
    (process_message world config no_reason read
      (record { from_class = some market; from_alias = registrar })
      create_cmd
      (world.create_bytes cmd)
      tables).0
    ≡ ok sent
unfolding run process_message apply_and_broadcast answer reply created_node class_of infer_base
served_with = refl

process_message-IsTrue_example :
    IsTrue world config cmd tables sound valid not_logged
      (verdict_of (world.sha256_hex (world.create_bytes cmd)) (note_messages sent []))
      (process_message world config no_reason read
        (record { from_class = some market; from_alias = registrar })
        create_cmd
        (world.create_bytes cmd)
        tables).1
process_message-IsTrue_example =
    process_message-IsTrue world config cmd tables sound valid not_logged no_reason market registrar
      read sent refl served_with

-- ---- the same, through the codec

abbrev no_letters : ℕ → Bool
no_letters c = false

abbrev no_int : Text → Option ℕ
no_int s = none

abbrev loads : List ℕ → Option Json
loads bytes = some (to_dict (g_node_create_cmd cmd))

reads_it : read_command no_letters no_int loads (world.create_bytes cmd) ≡ some (create cmd)
unfolding validate_create created_node
reads_it =
    read_command-to_dict no_letters no_int loads (create cmd) (world.create_bytes cmd) (valid, refl)
      refl

served_decoded :
    (process_message world config no_reason
      (read_command no_letters no_int loads)
      (record { from_class = some market; from_alias = registrar })
      create_cmd
      (world.create_bytes cmd)
      tables).0
    ≡ ok sent
unfolding process_message
served_decoded = rw reads_it served_with

run_create-decoded_example :
    run_create world
      (operation world config tables id_ta [] args no_reason
        (read_command no_letters no_int loads)
        market
        registrar
        sent
        [])
      id_ta
      args
    ≡ registered
run_create-decoded_example =
    run_create-decoded world config tables id_ta [] args no_reason market registrar no_letters
      no_int loads sent [] sound creatable refl served_decoded

-- ---- the second revision, where two nodes carry one position and a third has a row

abbrev points : List Text
points = codes "p1" ∷ []

abbrev carried : List (Option Text)
carried = some (codes "p2") ∷ none ∷ some (codes "p1") ∷ some (codes "p2") ∷ []

upgrade_lifecycle-mirrors_example :
    (migrate upgrade_lifecycle (at_initial points carried)
      ≡ some (at_lifecycle (points ++ missing points carried) carried))
    × (map shape lifecycle_tables ≡ map shape metadata)
    × UniqueBy (λ x. x) (points ++ missing points carried)
    × (all (is_known (points ++ missing points carried)) carried ≡ true)
upgrade_lifecycle-mirrors_example = upgrade_lifecycle-mirrors points carried (tt, tt)

one_is_inserted : missing points carried ≡ codes "p2" ∷ []
unfolding missing text_eq
one_is_inserted = refl
