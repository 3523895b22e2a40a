-- ===== src/Rebuild/Replay.antt =====
-- src/gnr/rebuild.py, lines 168-247: the replay of a capture. `apply` is a call of the authority, a
-- transaction of its own; an exception that is not caught ends the replay.
use grid_node_registry.Prelude.{
  ℕ, suc, Bool, true, false, Option, none, List, [], ◌∷◌, ◌++◌, map, Text, Eq, ◌==◌, if◌then◌else◌,
}
use native.Mathlib.Decide.{ℕ_discrete}
use grid_node_registry.Sema.GNode.{GNodeGt}
use grid_node_registry.Sema.Messages.{ConnectivityEdgeGt, GNodeForest}
use grid_node_registry.Registry.Session.{
  Result, ok, err, Error, Session, pure, raise, ◌>>=◌, create_error, reparent_error, undecodable,
}
use grid_node_registry.Authority.{World, Config, get_forest}
use grid_node_registry.Authority.Reachability.{Command, create, reparent, apply}
use grid_node_registry.Rebuild.{ObjectStore, RebuildReport, empty_report, add_name, capture_objects}

-- What `json.loads` and the codec make of the bytes of an object, told apart by its TypeName.
pub data Payload : Type 0 where
  command : Command → Payload
  broadcast : GNodeForest → Payload
  other : (type_name : Text) → Payload
  broken : Payload

abbrev pub State : Type 0
State = List Text × (List GNodeGt × (List ConnectivityEdgeGt × Option Text))

-- Every field but the send time; the type name and the version are constants.
unfoldable pub checkpoint_state : GNodeForest → State
checkpoint_state forest = (forest.roots, (forest.nodes, (forest.edges, forest.proof)))

state_dec : Discrete State
state_dec = hlevel ℕ_discrete

instance unfoldable pub state_eq : Eq State
unfolding state_dec ℕ_discrete
state_eq = record { dec = state_dec }

-- The variables of the loop.
pub record Replay : Type 0 where
  pub report : RebuildReport
  pub produced : List GNodeForest

-- `try … except`: the outcome as a value.
unfoldable pub attempt : {A : Type 0} → Session A → Session (Result A)
attempt m t = let (outcome, u) = m t in (ok outcome, u)

abbrev pub count_applied : GNodeForest → Replay → Replay
count_applied forest s = record {
  report = record s.report { applied = suc s.report.applied };
  produced = s.produced ++ forest ∷ [];
}

abbrev pub count_refused : Replay → Replay
count_refused s = record s { report = record s.report { refused = suc s.report.refused } }

-- Each branch catches the refusals of its own command only.
unfoldable pub is_refusal : Command → Error → Bool
is_refusal (create cmd) (create_error r) = true
is_refusal (reparent cmd) (reparent_error r) = true
is_refusal cmd e = false

unfoldable pub count_outcome : Command → Result GNodeForest → Replay → Session Replay
count_outcome cmd (ok forest) s = pure (count_applied forest s)
count_outcome cmd (err e) s = if is_refusal cmd e then pure (count_refused s) else raise e

-- produced and checkpoint_state(produced[0]) == captured_dict
unfoldable pub matches_head : List GNodeForest → GNodeForest → Bool
unfolding state_eq
matches_head [] captured = false
matches_head (forest ∷ rest) captured = checkpoint_state forest == checkpoint_state captured

-- produced.popleft()
abbrev pub popleft : List GNodeForest → List GNodeForest
popleft [] = []
popleft (forest ∷ rest) = rest

abbrev pub record_mismatch : ℕ → GNodeForest → Replay → Replay
record_mismatch n captured s = record s {
  report = record s.report { mismatches = s.report.mismatches ++ (n, captured.roots) ∷ [] };
}

unfoldable pub compare_current : ℕ → GNodeForest → Replay → GNodeForest → Session Replay
unfolding state_eq
compare_current n captured s current = pure (
    if checkpoint_state current == checkpoint_state captured
    then s
    else record_mismatch n captured s)

unfoldable pub check_broadcast : World → ℕ → GNodeForest → Replay → Session Replay
unfolding matches_head
check_broadcast w n captured s =
    if matches_head s.produced captured
    then pure (record s { produced = popleft s.produced })
    else do compare_current n captured s (← get_forest w captured.roots)

abbrev pub count_checkpoint : Replay → Replay
count_checkpoint s = record s {
  report = record s.report { checkpoints = suc s.report.checkpoints };
}

abbrev pub skip_name : Text → Replay → Replay
skip_name name s = record s {
  report = record s.report { skipped_type_names = add_name name s.report.skipped_type_names };
}

-- The body of the loop, for the payload with the number n.
unfoldable pub replay_payload : World → Config → ℕ → Payload → Replay → Session Replay
replay_payload w c n (command cmd) s = do
  outcome ← attempt (apply w c cmd)
  count_outcome cmd outcome s
replay_payload w c n (broadcast captured) s = check_broadcast w n captured (count_checkpoint s)
replay_payload w c n (other name) s = pure (skip_name name s)
replay_payload w c n broken s = raise undecodable

abbrev pub at_time : World → ℕ → World
at_time w ms = record w { send_time_ms = ms }

-- The call of the clock for the payload with the number n gives `clock n`.
module _ (w : World) (clock : ℕ → ℕ) (c : Config) where
  unfoldable pub replay_from : ℕ → List Payload → Replay → Session RebuildReport
  replay_from n [] s = pure s.report
  replay_from n (p ∷ payloads) s = do
    s' ← replay_payload (at_time w (clock n)) c n p s
    replay_from (suc n) payloads s'

  unfoldable pub replay : List Payload → RebuildReport → Session RebuildReport
  replay payloads report = replay_from 1 payloads (record { report = report; produced = [] })

-- The authority of a rebuild has the universe of the settings, and no digest for proofs.
unfoldable pub rebuild :
    World → (ℕ → ℕ) → (List ℕ → Payload) → Text → ObjectStore → Session RebuildReport
rebuild w clock decode universe store =
    let (objects, report) = capture_objects store empty_report in
    replay w clock (record { universe = universe; write_proof_sha256 = none })
      (map (λ o. decode (store.read o.key)) objects) report
