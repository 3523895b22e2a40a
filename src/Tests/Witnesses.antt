-- ===== src/Tests/Witnesses.antt =====
-- The theorems at concrete data: the sample registry, one creation and one insertion.
use grid_node_registry.Prelude.{
  ◌≡◌, ◌↔◌, inl, inr, refl, arith, none, some, [], ◌∷◌, map, codes, text_eq, In,
}
use grid_node_registry.Registry.Models.{GNodeSql}
use grid_node_registry.Registry.Growth.{Grows}
use grid_node_registry.Registry.Session.{
  ok, err, bad_proof, create_error, reparent_error, query_alias,
}
use grid_node_registry.Registry.Validate.Spec.{IsClean}
use grid_node_registry.Authority.{current_or_past}
use grid_node_registry.Authority.Create.{create_guards, apply_create}
use grid_node_registry.Authority.Reparent.{rewrite_prefix, apply_reparent}
use grid_node_registry.Authority.Consistency.{IsRegistry}
use grid_node_registry.Authority.Guards.{MayCreate, create_guards_iff}
use grid_node_registry.Authority.Atomicity.{bad_proof-refused}
use grid_node_registry.Authority.Rewriting.{moved, rewrite_prefix-moved}
use grid_node_registry.Authority.Replay.{replay_unchanged}
use grid_node_registry.Authority.Reachability.{
  apply, create, reparent, Reach, start, step, Reach-IsRegistry, Reach-IsClean, Reach-Grows,
  Reach-resolves,
}
use grid_node_registry.Tests.Samples.{
  world, config, gated, tables, create_ta, insert_n, keene, beech, id_beech, moved_beech,
}
use grid_node_registry.Tests.Facts.{unique_nodes, sound}
use grid_node_registry.Tests.Runs.{run, created, create_succeeds, with_ta, with_both}
use grid_node_registry.Prelude.{◌++◌, Text, sort, text_leb}
use grid_node_registry.Registry.Models.{row_of_gt}
use grid_node_registry.Registry.Session.{Refusal, get_command}
use grid_node_registry.Authority.{forest_roots, get_forest, forest_rows, add_unseen}
use grid_node_registry.Sema.Messages.{GNodeForest}
use grid_node_registry.Authority.Effects.{created_entry, apply_create-effect}
use grid_node_registry.Authority.Success.{
  IsCreatable, created_forest, with_entry, apply_create-succeeds,
}
use grid_node_registry.Authority.Moves.{reparented, apply_reparent-effect}
use grid_node_registry.Service.{broadcast_all_snapshots, broadcast_snapshots}
use grid_node_registry.Service.Answers.{channels, broadcast_all_snapshots-channels}
use grid_node_registry.Prelude.{UniqueBy, List}
use grid_node_registry.Authority.Forest.{Covered, forest_rows_iff}
use grid_node_registry.Authority.Reparent.{Claims}

both : Reach config tables with_both
both = step world (reparent insert_n) with_ta (step world (create create_ta) tables start)

Reach-IsRegistry_example : IsRegistry config.universe with_both
Reach-IsRegistry_example = Reach-IsRegistry config tables with_both sound both

Reach-IsClean_example : IsClean with_both config.universe
Reach-IsClean_example = Reach-IsClean config tables with_both sound both

Reach-Grows_example : Grows tables with_both
Reach-Grows_example = Reach-Grows config tables with_both both

-- The alias of `beech` before it was moved.
Reach-resolves_example :
    (n : GNodeSql) × (current_or_past beech.alias (query_alias beech.alias with_both) with_both
      ≡ some n)
    × In n with_both.g_nodes
    × (n.id ≡ id_beech)
Reach-resolves_example =
    Reach-resolves config tables with_both beech.alias id_beech sound both (inr (inr (inl refl)))

replay_unchanged_example : (apply world config (create create_ta) with_both).1 ≡ with_both
replay_unchanged_example =
    replay_unchanged world world config (create create_ta) tables with_both created create_succeeds
      (step world (reparent insert_n) with_ta start) refl

refused_at_gate : (apply world gated (create create_ta) tables).0 ≡ err (create_error bad_proof)
unfolding run
refused_at_gate = refl

bad_proof-refused_example :
    (apply_create world gated create_ta tables ≡ (err (create_error bad_proof), tables))
    × (apply_reparent world gated insert_n tables ≡ (err (reparent_error bad_proof), tables))
bad_proof-refused_example =
    bad_proof-refused world gated (codes "secret") create_ta insert_n tables refl
      (λ p e. ground arith) (λ p e. ground arith)

create_guards_iff_example :
    (create_guards world config create_ta.new_node tables ≡ (ok tt, tables))
    ↔ MayCreate config.universe create_ta.new_node tables
create_guards_iff_example = create_guards_iff world config create_ta.new_node tables

beech_rewritten :
    (rewrite_prefix (codes "d1.isone.keene") (codes "d1.isone.n") [] tables).0
    ≡ ok (keene.id ∷ beech.id ∷ [])
unfolding run
beech_rewritten = refl

rewrite_prefix-moved_example :
    (rewrite_prefix (codes "d1.isone.keene") (codes "d1.isone.n") [] tables).1.g_nodes
    ≡ map (moved (codes "d1.isone.keene") (codes "d1.isone.n")) tables.g_nodes
rewrite_prefix-moved_example =
    rewrite_prefix-moved (codes "d1.isone.keene") (codes "d1.isone.n") [] (keene.id ∷ beech.id ∷ [])
      tables unique_nodes.ids beech_rewritten

not_logged :
    (get_command (world.sha256_hex (world.create_bytes create_ta)) tables ≡ none)
    × (get_command (world.sha256_hex (world.reparent_bytes insert_n)) tables ≡ none)
unfolding get_command
not_logged = (refl, refl)

create_returns : (apply_create world config create_ta tables).0 ≡ ok created
unfolding run
create_returns = refl

apply_create-effect_example :
    ((apply_create world config create_ta tables).1.g_nodes
      ≡ tables.g_nodes ++ row_of_gt create_ta.new_node ∷ [])
    × ((apply_create world config create_ta tables).1.command_log
        ≡ created_entry world config create_ta ∷ [])
apply_create-effect_example =
    apply_create-effect world config create_ta tables created not_logged.0 create_returns

creatable : IsCreatable world config create_ta tables
unfolding run
creatable = record {
  proven = refl;
  unlogged = not_logged.0;
  may = create_guards_iff_example.0 refl;
  valid = refl;
  placed = refl;
  audited = refl;
  timed = refl;
}

apply_create-succeeds_example :
    apply_create world config create_ta tables
    ≡ (ok (created_forest world config create_ta tables), with_entry world config create_ta tables)
apply_create-succeeds_example =
    apply_create-succeeds world config create_ta tables sound.consistent creatable

abbrev moved_forest : GNodeForest
moved_forest = record {
  roots = insert_n.new_node.alias ∷ [];
  nodes = insert_n.new_node ∷ moved_beech ∷ [];
  edges = [];
  send_time_ms = world.send_time_ms;
  proof = none;
}

reparent_returns : (apply_reparent world config insert_n tables).0 ≡ ok moved_forest
unfolding run
reparent_returns = refl

apply_reparent-effect_example :
    (apply_reparent world config insert_n tables).1.g_nodes
    ≡ reparented world config insert_n tables.g_nodes
apply_reparent-effect_example =
    apply_reparent-effect world config insert_n tables moved_forest unique_nodes.ids not_logged.1
      reparent_returns

abbrev no_reason : Refusal → Text
no_reason r = codes "refused"

snapshots_run : (broadcast_all_snapshots world tables).1 ≡ none
unfolding run broadcast_all_snapshots broadcast_snapshots forest_roots get_forest forest_rows
    add_unseen sort text_leb
snapshots_run = refl

broadcast_all_snapshots-channels_example :
    channels (broadcast_all_snapshots world tables).0 ≡ forest_roots tables
broadcast_all_snapshots-channels_example =
    broadcast_all_snapshots-channels world tables snapshots_run

-- Two roots, one under the other.
abbrev nested : List Text
nested = keene.alias ∷ beech.alias ∷ []

forest_rows_iff_example :
    UniqueBy (λ (n : GNodeSql). n.id) (forest_rows world [] nested tables)
    × ((n : GNodeSql) → In n (forest_rows world [] nested tables) ↔ Covered tables nested n)
forest_rows_iff_example = forest_rows_iff world tables nested unique_nodes.ids

-- The alias of `beech`, intended for another id.
abbrev intended : Claims
intended = (beech.alias, keene.id) ∷ []
