-- ===== src/Rebuild/Report.antt =====
-- Where a replay (src/gnr/rebuild.py) leaves the tables.
use grid_node_registry.Prelude.{ℕ, suc, refl, sym, subst, none, List, [], ◌∷◌, Text, text_eq}
use grid_node_registry.Sema.Messages.{GNodeForest}
use grid_node_registry.Registry.Models.{Tables, empty_tables}
use grid_node_registry.Registry.Session.{Result, ok, err, Session, pure, ◌>>=◌, continue}
use grid_node_registry.Registry.Validate.{
  validate_registry, check_universe_scope, check_parent_closed_active, check_edges_non_tree,
  active_edges_of, check_class_hierarchy, check_active_physical_have_position,
}
use grid_node_registry.Authority.Consistency.{IsRegistry}
use grid_node_registry.Registry.Reads.{Reads, Reads-pure, Reads-bind, Reads-raise, Reads-of_if}
use grid_node_registry.Authority.{World, Config}
use grid_node_registry.Authority.Reads.{get_forest-Reads}
use grid_node_registry.Authority.Reachability.{Command, Reach, Reach-IsRegistry, start, step}
use grid_node_registry.Rebuild.{RebuildReport, ObjectStore}
use grid_node_registry.Rebuild.Replay.{
  Payload, command, broadcast, other, broken, Replay, attempt, count_outcome, compare_current,
  check_broadcast, replay_payload, at_time, replay_from, replay, rebuild,
}

count_outcome-Reads :
    (cmd : Command) (o : Result GNodeForest) (s : Replay) → Reads (count_outcome cmd o s)
unfolding count_outcome
count_outcome-Reads cmd (ok f) s = Reads-pure _
count_outcome-Reads cmd (err e) s = Reads-of_if _ _ _ (Reads-pure _) (Reads-raise _)

compare_current-Reads :
    (n : ℕ) (captured : GNodeForest) (s : Replay) (current : GNodeForest)
    → Reads (compare_current n captured s current)
unfolding compare_current
compare_current-Reads n captured s current = Reads-pure _

check_broadcast-Reads :
    (w : World) (n : ℕ) (captured : GNodeForest) (s : Replay)
    → Reads (check_broadcast w n captured s)
unfolding check_broadcast
check_broadcast-Reads w n captured s =
    Reads-of_if _ _ _ (Reads-pure _)
      (Reads-bind _ _ (get_forest-Reads w _) (compare_current-Reads n captured s))

module _ (w : World) (c : Config) (t : Tables) where
  -- A payload is a step of the registry, or none.
  Reach-replay_payload :
      (n : ℕ) (p : Payload) (s : Replay) (u : Tables)
      → Reach c t u
      → Reach c t (replay_payload w c n p s u).1
  unfolding replay_payload ◌>>=◌ attempt
  Reach-replay_payload n (command cmd) s u r =
      subst (Reach c t) (sym ((count_outcome-Reads cmd _ s).at _)) (step w cmd u r)
  Reach-replay_payload n (broadcast f) s u r =
      subst (Reach c t) (sym ((check_broadcast-Reads w n f _).at u)) r
  Reach-replay_payload n (other name) s u r = r
  Reach-replay_payload n broken s u r = r

module _ (w : World) (clock : ℕ → ℕ) (c : Config) (t : Tables) where
  reached_on :
      (f : Replay → Session RebuildReport) (o : Result Replay × Tables)
      → Reach c t o.1
      → ((s : Replay) (u : Tables) → Reach c t u → Reach c t (f s u).1)
      → Reach c t (continue f o).1
  reached_on f (ok s, v) r h = h s v r
  reached_on f (err e, v) r h = r

  Reach-replay_from :
      (n : ℕ) (payloads : List Payload) (s : Replay) (u : Tables)
      → Reach c t u
      → Reach c t (replay_from w clock c n payloads s u).1
  unfolding replay_from pure ◌>>=◌
  Reach-replay_from n [] s u r = r
  Reach-replay_from n (p ∷ payloads) s u r =
      reached_on (replay_from w clock c (suc n) payloads)
        (replay_payload (at_time w (clock n)) c n p s u)
        (Reach-replay_payload (at_time w (clock n)) c t n p s u r)
        (Reach-replay_from (suc n) payloads)

empty-IsRegistry : (universe : Text) → IsRegistry universe empty_tables
unfolding validate_registry check_universe_scope check_parent_closed_active check_edges_non_tree
    active_edges_of check_class_hierarchy check_active_physical_have_position
empty-IsRegistry universe = record {
  consistent = record {
    keyed = record { ids = tt; aliases = tt; claims = tt; commands = tt; owners = λ c i. absurd i };
    owned = λ n i. absurd i;
  };
  clean = refl;
}

-- From tables without rows, a rebuild ends with a registry that is consistent and has no violations, if
-- it returns or not, whatever the capture holds.
pub rebuild-IsRegistry :
    (w : World) (clock : ℕ → ℕ) (decode : List ℕ → Payload) (universe : Text) (store : ObjectStore)
    → IsRegistry universe (rebuild w clock decode universe store empty_tables).1
unfolding rebuild replay
rebuild-IsRegistry w clock decode universe store =
    Reach-IsRegistry (record { universe = universe; write_proof_sha256 = none }) empty_tables _
      (empty-IsRegistry universe)
      (Reach-replay_from w clock _ empty_tables 1 _ _ empty_tables start)
