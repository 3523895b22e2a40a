-- ===== src/Rebuild/Stream.antt =====
-- The captures that src/gnr/rebuild.py replays: what the ear hears of a registry at work.
use grid_node_registry.Prelude.{
  ℕ, suc, Bool-cases, inl, inr, ◌≡◌, refl, subst, arith, true, List, [], ◌∷◌, Text, ◌==◌,
}
use grid_node_registry.Sema.Format.{is_utc_milliseconds}
use grid_node_registry.Sema.Messages.{GNodeForest}
use grid_node_registry.Registry.Models.{Tables}
use grid_node_registry.Registry.Session.{Result, ok, err, Error, pure, ◌>>=◌}
use grid_node_registry.Authority.{World, Config, get_forest}
use grid_node_registry.Authority.Reachability.{Command, apply}
use grid_node_registry.Rebuild.Replay.{
  Payload, command, broadcast, other, checkpoint_state, state_eq, Replay, attempt, is_refusal,
  count_outcome, matches_head, count_applied, count_refused, count_checkpoint, popleft, skip_name,
  record_mismatch, compare_current, check_broadcast, replay_payload, at_time,
}
use grid_node_registry.Rebuild.Clock.{Agree}

module _ (w : World) (c : Config) where
  -- A registry serves commands, and the ear captures each command where it is served. It captures
  -- broadcasts too, whose content and order are left open: only the forest under their roots is to be
  -- readable. `Captured t payloads u a r`: from the tables `t`, the ear captures `payloads` and the
  -- registry comes to the tables `u`, with `a` commands applied and `r` refused.
  pub data Captured : Tables → List Payload → Tables → ℕ → ℕ → Type 0 where
    done : (t : Tables) → Captured t [] t 0 0
    applied :
        (ms : ℕ) (cmd : Command) (f : GNodeForest) (t u : Tables) (payloads : List Payload)
        (a r : ℕ)
        → is_utc_milliseconds ms ≡ true
        → (apply (at_time w ms) c cmd t).0 ≡ ok f
        → Captured (apply (at_time w ms) c cmd t).1 payloads u a r
        → Captured t (command cmd ∷ payloads) u (suc a) r
    refused :
        (ms : ℕ) (cmd : Command) (e : Error) (t u : Tables) (payloads : List Payload) (a r : ℕ)
        → is_utc_milliseconds ms ≡ true
        → (apply (at_time w ms) c cmd t).0 ≡ err e
        → is_refusal cmd e ≡ true
        → Captured (apply (at_time w ms) c cmd t).1 payloads u a r
        → Captured t (command cmd ∷ payloads) u a (suc r)
    heard :
        (ms : ℕ) (f g : GNodeForest) (t u : Tables) (payloads : List Payload) (a r : ℕ)
        → is_utc_milliseconds ms ≡ true
        → (get_forest (at_time w ms) f.roots t).0 ≡ ok g
        → Captured t payloads u a r
        → Captured t (broadcast f ∷ payloads) u a r
    not_read :
        (name : Text) (t u : Tables) (payloads : List Payload) (a r : ℕ)
        → Captured t payloads u a r
        → Captured t (other name ∷ payloads) u a r

-- ---- one payload

module _ {A : Type 0} (R : A → A → Type 0) where
  pub Agree-ok :
      (r s : Result A × Tables) (a : A)
      → Agree R r s
      → r.0 ≡ ok a
      → (b : A) × (s ≡ (ok b, r.1)) × R a b
  Agree-ok (ok a, t) (ok b, u) a' h e = (b, cc h.1, subst (λ x. R x b) (cc e) h.0)
  Agree-ok (err x, t) s a' h e = ground arith
  Agree-ok (ok a, t) (err y, u) a' h e = absurd h

  pub Agree-err :
      (r s : Result A × Tables) (x : Error) → Agree R r s → r.0 ≡ err x → s ≡ (err x, r.1)
  Agree-err (ok a, t) s x h e = ground arith
  Agree-err (err y, t) (err z, u) x h e = cc (h.0, h.1, e)
  Agree-err (err y, t) (ok b, u) x h e = absurd h

module _ (w : World) (c : Config) (n : ℕ) (s : Replay) (t : Tables) where
  pub replay_payload-applied :
      (cmd : Command) (f : GNodeForest) (v : Tables)
      → apply w c cmd t ≡ (ok f, v)
      → replay_payload w c n (command cmd) s t ≡ (ok (count_applied f s), v)
  unfolding replay_payload attempt count_outcome ◌>>=◌
  replay_payload-applied cmd f v e = rw e refl

  pub replay_payload-refused :
      (cmd : Command) (e : Error) (v : Tables)
      → apply w c cmd t ≡ (err e, v)
      → is_refusal cmd e ≡ true
      → replay_payload w c n (command cmd) s t ≡ (ok (count_refused s), v)
  unfolding replay_payload attempt count_outcome ◌>>=◌
  replay_payload-refused cmd e v h k = rw (h, k) refl

  -- The next state has the same counts of commands.
  abbrev pub SameCounts : Replay → Type 0
  SameCounts s' = (s'.report.applied ≡ s.report.applied) × (s'.report.refused ≡ s.report.refused)

  compared :
      (f g : GNodeForest)
      → (s' : Replay) × (compare_current n f (count_checkpoint s) g t ≡ (ok s', t)) × SameCounts s'
  unfolding compare_current pure
  compared f g = elim (Bool-cases (checkpoint_state g == checkpoint_state f)) [
    | inl e ↦ (count_checkpoint s, rw e refl, (refl, refl))
    | inr e ↦ (record_mismatch n f (count_checkpoint s), rw e refl, (refl, refl))
  ]

  -- A broadcast changes no table, whatever it says.
  pub replay_payload-heard :
      (f g : GNodeForest)
      → get_forest w f.roots t ≡ (ok g, t)
      → (s' : Replay) × (replay_payload w c n (broadcast f) s t ≡ (ok s', t)) × SameCounts s'
  unfolding replay_payload check_broadcast ◌>>=◌ pure
  replay_payload-heard f g h = elim (Bool-cases (matches_head s.produced f)) [
    | inl e ↦
        (record (count_checkpoint s) { produced = popleft s.produced }, rw e refl, (refl, refl))
    | inr e ↦ let (s', run, same) = compared f g in (s', rw (e, h) run, same)
  ]

  pub replay_payload-other :
      (name : Text) → replay_payload w c n (other name) s t ≡ (ok (skip_name name s), t)
  unfolding replay_payload pure
  replay_payload-other name = refl
