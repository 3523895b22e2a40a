-- ===== src/Rebuild/Checkpoints.antt =====
-- What a rebuild of src/gnr/rebuild.py says of a captured broadcast.
use grid_node_registry.Prelude.{
  ℕ, ◌≡◌, refl, ap, true, false, List, [], ◌∷◌, ◌++◌, ◌==◌, ==→≡, ==_refl, Bool-cases, inl, inr,
}
use grid_node_registry.Sema.Messages.{GNodeForest}
use grid_node_registry.Registry.Models.{Tables}
use grid_node_registry.Registry.Session.{Result, ok, pure, ◌>>=◌}
use grid_node_registry.Authority.{World, get_forest}
use grid_node_registry.Authority.Reads.{get_forest-Reads}
use grid_node_registry.Rebuild.Replay.{
  State, checkpoint_state, state_eq, Replay, matches_head, popleft, compare_current,
  check_broadcast,
}

-- Two forests that differ at most in their send times.
abbrev pub SameButTime : GNodeForest → GNodeForest → Type 0
SameButTime f g =
    ◌≡◌ {A = GNodeForest} (record f { send_time_ms = 0 }) (record g { send_time_ms = 0 })

-- The broadcast is the next one that the replay has produced.
abbrev pub IsNext : List GNodeForest → GNodeForest → Type 0
IsNext [] captured = ⊥
IsNext (f ∷ rest) captured = SameButTime f captured

same_checkpoint :
    (f g : GNodeForest) → (checkpoint_state f == checkpoint_state g) ≡ true → SameButTime f g
unfolding checkpoint_state
same_checkpoint f g h = ap of_state (==→≡ (checkpoint_state f) (checkpoint_state g) h)
  where
    of_state : State → GNodeForest
    of_state (roots, (nodes, (edges, proof))) = record {
      roots = roots;
      nodes = nodes;
      edges = edges;
      send_time_ms = 0;
      proof = proof;
    }

checkpoint_same :
    (f g : GNodeForest) → SameButTime f g → (checkpoint_state f == checkpoint_state g) ≡ true
unfolding checkpoint_state
checkpoint_same f g h = rw (ap checkpoint_state h) (==_refl (checkpoint_state g))

other_checkpoint :
    (f g : GNodeForest) → (SameButTime f g → ⊥) → (checkpoint_state f == checkpoint_state g) ≡ false
other_checkpoint f g h = elim (Bool-cases (checkpoint_state f == checkpoint_state g)) [
  | inl e ↦ absurd (h (same_checkpoint f g e))
  | inr e ↦ e
]

next_matches :
    (produced : List GNodeForest) (captured : GNodeForest)
    → IsNext produced captured
    → matches_head produced captured ≡ true
unfolding matches_head
next_matches [] captured h = absurd h
next_matches (f ∷ rest) captured h = checkpoint_same f captured h

other_next :
    (produced : List GNodeForest) (captured : GNodeForest)
    → (IsNext produced captured → ⊥)
    → matches_head produced captured ≡ false
unfolding matches_head
other_next [] captured h = refl
other_next (f ∷ rest) captured h = other_checkpoint f captured h

both_parts :
    (r : Result GNodeForest × Tables) (g : GNodeForest) (t : Tables)
    → r.0 ≡ ok g
    → r.1 ≡ t
    → r ≡ (ok g, t)
both_parts (o, u) g t h k = rw (h, k) refl

pub check_broadcast-verdict :
    (w : World) (n : ℕ) (captured g : GNodeForest) (s : Replay) (t : Tables)
    → (get_forest w captured.roots t).0 ≡ ok g
    → (IsNext s.produced captured
        → check_broadcast w n captured s t ≡ (ok (record s { produced = popleft s.produced }), t))
      × ((IsNext s.produced captured → ⊥)
          → SameButTime g captured
          → check_broadcast w n captured s t ≡ (ok s, t))
      × ((IsNext s.produced captured → ⊥)
          → (SameButTime g captured → ⊥)
          → check_broadcast w n captured s t ≡ (
            ok (record s {
              report = record s.report {
                mismatches = s.report.mismatches ++ (n, captured.roots) ∷ [];
              };
            }),
            t,
          ))
unfolding check_broadcast compare_current ◌>>=◌ pure
check_broadcast-verdict w n captured g s t h =
    let e =
      both_parts (get_forest w captured.roots t) g t h ((get_forest-Reads w captured.roots).at t) in
    (
      λ h. rw (next_matches s.produced captured h) refl,
      λ h k. rw (other_next s.produced captured h, e, checkpoint_same g captured k) refl,
      λ h k. rw (other_next s.produced captured h, e, other_checkpoint g captured k) refl,
    )
