-- ===== src/Rebuild/Restore.antt =====
-- The rebuild of src/gnr/rebuild.py restores the tables of the registry whose messages were captured.
use grid_node_registry.Prelude.{
  ℕ, suc, ◌+◌, arith, ◌≡◌, refl, ◌∙◌, ap, true, false, Option, none, List, [], ◌∷◌, map, Text,
  text_eq, contains, Option-cases, inl, inr, Bool-cases,
}
use grid_node_registry.Sema.Format.{is_utc_milliseconds}
use grid_node_registry.Registry.Models.{Tables, empty_tables}
use grid_node_registry.Registry.Session.{ok, pure, ◌>>=◌}
use grid_node_registry.Authority.{World, Config, get_forest, check_proof, proof_fails}
use grid_node_registry.Authority.Create.{
  apply_create, create_unless_logged, create_guards, create_writes,
}
use grid_node_registry.Authority.Reparent.{
  apply_reparent, reparent_unless_logged, reparent_guards, reparent_writes,
}
use grid_node_registry.Authority.Reachability.{Command, create, reparent, apply}
use grid_node_registry.Authority.Reads.{get_forest-Reads}
use grid_node_registry.Rebuild.{
  RebuildReport, CaptureObject, ObjectStore, select_objects, capture_objects, parse_object_key,
  empty_report, replay_type_names,
}
use grid_node_registry.Rebuild.Replay.{
  Payload, command, broadcast, other, state_eq, Replay, count_applied, count_refused, skip_name,
  replay_payload, at_time, replay_from, replay, rebuild,
}
use grid_node_registry.Rebuild.Clock.{SameState, get_forest-Agrees, apply-Agrees}
use grid_node_registry.Rebuild.Stream.{
  Captured, done, applied, refused, heard, not_read, Agree-ok, Agree-err, replay_payload-applied,
  replay_payload-refused, replay_payload-heard, replay_payload-other,
}

module _ (w : World) (clock : ℕ → ℕ) (c : Config)
    (timed : (n : ℕ) → is_utc_milliseconds (clock n) ≡ true) where
  abbrev Restores : ℕ → List Payload → Replay → Tables → Tables → ℕ → ℕ → Type 0
  Restores n payloads s t u a r =
      (report : RebuildReport) × (replay_from w clock c n payloads s t ≡ (ok report, u))
      × (report.applied ≡ s.report.applied + a)
      × (report.refused ≡ s.report.refused + r)

  Restores-step :
      (n : ℕ) (p : Payload) (payloads : List Payload) (s s' : Replay) (t v u : Tables) (a r b q : ℕ)
      → replay_payload (at_time w (clock n)) c n p s t ≡ (ok s', v)
      → s'.report.applied + a ≡ s.report.applied + b
      → s'.report.refused + r ≡ s.report.refused + q
      → Restores (suc n) payloads s' v u a r
      → Restores n (p ∷ payloads) s t u b q
  unfolding replay_from ◌>>=◌
  Restores-step n p payloads s s' t v u a r b q e k l (report, run, f, g) =
      (report, rw e run, f ∙ k, g ∙ l)

  restores :
      (t u : Tables) (payloads : List Payload) (a r : ℕ) (n : ℕ) (s : Replay)
      → Captured w c t payloads u a r
      → Restores n payloads s t u a r
  unfolding replay_from pure
  restores _ _ _ _ _ n s (done t) = (s.report, refl, omega arith, omega arith)
  restores _ _ _ _ _ n s (applied ms cmd f t u payloads a r valid e k) =
      let (g, run, same) =
        Agree-ok SameState _ (apply (at_time w (clock n)) c cmd t) f
          ((apply-Agrees w c ms (clock n) valid (timed n) cmd).at t) e in
      Restores-step n (command cmd) payloads s (count_applied g s) t _ u a r (suc a) r
        (replay_payload-applied _ c n s t cmd g _ run) (omega arith) refl
        (restores _ u payloads a r (suc n) (count_applied g s) k)
  restores _ _ _ _ _ n s (refused ms cmd e t u payloads a r valid h k rest) =
      Restores-step n (command cmd) payloads s (count_refused s) t _ u a r a (suc r)
        (replay_payload-refused _ c n s t cmd e _
          (Agree-err SameState _ _ e ((apply-Agrees w c ms (clock n) valid (timed n) cmd).at t) h)
          k)
        refl (omega arith) (restores _ u payloads a r (suc n) (count_refused s) rest)
  restores _ _ _ _ _ n s (heard ms f g t u payloads a r valid e rest) =
      let (g', run, _) =
        Agree-ok SameState _ (get_forest (at_time w (clock n)) f.roots t) g
          ((get_forest-Agrees w c ms (clock n) valid (timed n) f.roots).at t) e in
      let (s', step, (same_applied, same_refused)) =
        replay_payload-heard _ c n s t f g'
          (run ∙ ap (λ x. (ok g', x)) ((get_forest-Reads (at_time w ms) f.roots).at t)) in
      Restores-step n (broadcast f) payloads s s' t t u a r a r step (ap (λ x. x + a) same_applied)
        (ap (λ x. x + r) same_refused) (restores t u payloads a r (suc n) s' rest)
  restores _ _ _ _ _ n s (not_read name t u payloads a r rest) =
      Restores-step n (other name) payloads s (skip_name name s) t t u a r a r
        (replay_payload-other _ c n s t name) refl refl
        (restores t u payloads a r (suc n) (skip_name name s) rest)

  -- A capture replays, at any valid times, without an exception, and ends with the tables that the
  -- registry had, having applied and refused as many commands.
  pub replay-Captured :
      (t u : Tables) (payloads : List Payload) (a r : ℕ) (report : RebuildReport)
      → Captured w c t payloads u a r
      → (report' : RebuildReport) × (replay w clock c payloads report t ≡ (ok report', u))
        × (report'.applied ≡ report.applied + a)
        × (report'.refused ≡ report.refused + r)
  unfolding replay
  replay-Captured t u payloads a r report k =
      restores t u payloads a r 1 (record { report = report; produced = [] }) k

-- ---- without the gate

-- The authority of a rebuild, which asks for no proof.
abbrev pub ungated : Text → Config
ungated universe = record { universe = universe; write_proof_sha256 = none }

abbrev proof_of : Command → Option Text
proof_of (create cmd) = cmd.proof
proof_of (reparent cmd) = cmd.proof

module _ (w : World) (c : Config) where
  -- Each command of the capture has a proof that the registry accepts.
  abbrev pub AllProven : List Payload → Type 0
  AllProven [] = Unit
  AllProven (command cmd ∷ payloads) =
      (proof_fails w c c.write_proof_sha256 (proof_of cmd) ≡ false) × AllProven payloads
  AllProven (p ∷ payloads) = AllProven payloads

  apply-ungated :
      (ms : ℕ) (cmd : Command) (t : Tables)
      → proof_fails w c c.write_proof_sha256 (proof_of cmd) ≡ false
      → apply (at_time w ms) (ungated c.universe) cmd t ≡ apply (at_time w ms) c cmd t
  unfolding apply apply_create apply_reparent check_proof create_unless_logged create_guards
      create_writes reparent_unless_logged reparent_guards reparent_writes
  apply-ungated ms (create cmd) t h = rw h refl
  apply-ungated ms (reparent cmd) t h = rw h refl

  -- What a gated registry served is what one without a gate would have served.
  Captured-ungated :
      (t u : Tables) (payloads : List Payload) (a r : ℕ)
      → Captured w c t payloads u a r
      → AllProven payloads
      → Captured w (ungated c.universe) t payloads u a r
  Captured-ungated _ _ _ _ _ (done t) p = done t
  Captured-ungated _ _ _ _ _ (applied ms cmd f t u payloads a r valid e k) (p, ps) =
      let same = apply-ungated ms cmd t p in
      applied ms cmd f t u payloads a r valid (rw (same, e) refl)
        (rw same (Captured-ungated _ u payloads a r k ps))
  Captured-ungated _ _ _ _ _ (refused ms cmd e t u payloads a r valid h k rest) (p, ps) =
      let same = apply-ungated ms cmd t p in
      refused ms cmd e t u payloads a r valid (rw (same, h) refl) k
        (rw same (Captured-ungated _ u payloads a r rest ps))
  Captured-ungated _ _ _ _ _ (heard ms f g t u payloads a r valid e rest) ps =
      heard ms f g t u payloads a r valid e (Captured-ungated t u payloads a r rest ps)
  Captured-ungated _ _ _ _ _ (not_read name t u payloads a r rest) ps =
      not_read name t u payloads a r (Captured-ungated t u payloads a r rest ps)

-- ---- the objects

select_objects-counts :
    (keys : List Text) (selected : List CaptureObject) (report : RebuildReport)
    → ((select_objects keys selected report).1.applied ≡ report.applied)
      × ((select_objects keys selected report).1.refused ≡ report.refused)
unfolding select_objects
select_objects-counts [] selected report = (refl, refl)
select_objects-counts (key ∷ keys) selected report = elim (Option-cases (parse_object_key key)) [
  | inl e ↦ rw (e, select_objects) (select_objects-counts keys _ _)
  | inr (o, e) ↦ elim (Bool-cases (contains replay_type_names o.type_name)) [
    | inl p ↦ rw (e, select_objects, p) (select_objects-counts keys _ _)
    | inr p ↦ rw (e, select_objects, p) (select_objects-counts keys _ _)
  ]
]

capture_objects-counts :
    (store : ObjectStore) (report : RebuildReport)
    → ((capture_objects store report).1.applied ≡ report.applied)
      × ((capture_objects store report).1.refused ≡ report.refused)
unfolding capture_objects
capture_objects-counts store report = select_objects-counts store.list_keys [] report

abbrev pub payloads_of : (List ℕ → Payload) → ObjectStore → List Payload
payloads_of decode store =
    map (λ o. decode (store.read o.key)) (capture_objects store empty_report).0

pub rebuild-Captured :
    (w : World) (clock : ℕ → ℕ) (c : Config) (decode : List ℕ → Payload) (store : ObjectStore)
    (u : Tables) (a r : ℕ)
    → ((n : ℕ) → is_utc_milliseconds (clock n) ≡ true)
    → Captured w c empty_tables (payloads_of decode store) u a r
    → AllProven w c (payloads_of decode store)
    → (report : RebuildReport) × (rebuild w clock decode c.universe store empty_tables
        ≡ (ok report, u))
      × (report.applied ≡ a)
      × (report.refused ≡ r)
unfolding rebuild
rebuild-Captured w clock c decode store u a r timed k p =
    let (report, run, f, g) =
      replay-Captured w clock (ungated c.universe) timed empty_tables u (payloads_of decode store) a
        r (capture_objects store empty_report).1 (Captured-ungated w c empty_tables u _ a r k p) in
    let (x, y) = capture_objects-counts store empty_report in
    (report, run, omega (arith, f, x), omega (arith, g, y))
