-- ===== src/Rebuild/Tally.antt =====
-- What a replay (src/gnr/rebuild.py) counts.
use grid_node_registry.Prelude.{
  ℕ, suc, ◌+◌, ◌≡◌, refl, subst, ap, arith, Bool, true, false, List, [], ◌∷◌, ◌++◌, length, ◌≤◌,
  if◌then◌else◌, text_eq,
}
use grid_node_registry.Sema.Messages.{GNodeForest}
use grid_node_registry.Registry.Models.{Tables}
use grid_node_registry.Registry.Session.{
  Result, ok, err, Error, Session, pure, raise, ◌>>=◌, continue,
}
use grid_node_registry.Authority.{World, Config}
use grid_node_registry.Authority.Reachability.{Command}
use grid_node_registry.Rebuild.{RebuildReport}
use grid_node_registry.Rebuild.Replay.{
  Payload, command, broadcast, other, broken, Replay, count_outcome, compare_current,
  record_mismatch, check_broadcast, replay_payload, at_time, replay_from, replay, count_checkpoint,
}

abbrev OnReturn : {A : Type 0} → (A → Type 0) → Result A → Type 0
OnReturn P (ok a) = P a
OnReturn P (err e) = Unit

record Gives {A : Type 0} (P : A → Type 0) (m : Session A) : Type 0 where
  at : (t : Tables) → OnReturn P (m t).0

module _ {A : Type 0} (P : A → Type 0) where
  Gives-pure : (a : A) → P a → Gives P (pure a)
  unfolding pure
  Gives-pure a h = record { at = λ t. h }

  Gives-raise : (e : Error) → Gives P (raise e)
  unfolding raise
  Gives-raise e = record { at = λ t. tt }

  Gives-if : (b : Bool) (m n : Session A) → Gives P m → Gives P n → Gives P (if b then m else n)
  Gives-if true m n h k = h
  Gives-if false m n h k = k

module _ {A B : Type 0} (P : A → Type 0) (Q : B → Type 0) where
  Gives-on :
      (f : A → Session B) (o : Result A × Tables)
      → OnReturn P o.0
      → ((a : A) → P a → Gives Q (f a))
      → OnReturn Q (continue f o).0
  Gives-on f (ok a, t) h k = (k a h).at t
  Gives-on f (err e, t) h k = tt

  Gives-bind :
      (m : Session A) (f : A → Session B)
      → Gives P m
      → ((a : A) → P a → Gives Q (f a))
      → Gives Q (m >>= f)
  unfolding ◌>>=◌
  Gives-bind m f h k = record { at = λ t. Gives-on f (m t) (h.at t) k }

Gives-any : {A : Type 0} (m : Session A) → Gives (λ _. Unit {0}) m
Gives-any m = record { at = λ t. any_outcome (m t).0 }
  where
    any_outcome : {A : Type 0} (o : Result A) → OnReturn (λ _. Unit {0}) o
    any_outcome (ok a) = tt
    any_outcome (err e) = tt

-- The commands and the broadcasts of a capture.
abbrev pub commands : List Payload → ℕ
commands [] = 0
commands (command cmd ∷ payloads) = suc (commands payloads)
commands (p ∷ payloads) = commands payloads

abbrev pub broadcasts : List Payload → ℕ
broadcasts [] = 0
broadcasts (broadcast f ∷ payloads) = suc (broadcasts payloads)
broadcasts (p ∷ payloads) = broadcasts payloads

-- What `payloads` add to the counts.
pub record Tallies (payloads : List Payload) (before after : RebuildReport) : Type 0 where
  pub answered : after.applied + after.refused ≡ before.applied + before.refused + commands payloads
  pub checked : after.checkpoints ≡ before.checkpoints + broadcasts payloads
  pub failed :
      length after.mismatches + before.checkpoints ≤ length before.mismatches + after.checkpoints

length-append_one : {A : Type 0} (xs : List A) (a : A) → length (xs ++ a ∷ []) ≡ suc (length xs)
length-append_one [] a = refl
length-append_one (x ∷ xs) a = cc (length-append_one xs a)

module _ (w : World) (c : Config) (n : ℕ) (s : Replay) where
  outcome-Tallies :
      (cmd : Command) (o : Result GNodeForest)
      → Gives (λ s'. Tallies (command cmd ∷ []) s.report s'.report) (count_outcome cmd o s)
  unfolding count_outcome
  outcome-Tallies cmd (ok f) =
      Gives-pure _ _
        (record { answered = omega arith; checked = omega arith; failed = omega arith })
  outcome-Tallies cmd (err e) =
      Gives-if _ _ _ _
        (Gives-pure _ _
          (record { answered = omega arith; checked = omega arith; failed = omega arith }))
        (Gives-raise _ e)

  compared :
      (f current : GNodeForest) (b : Bool)
      → Tallies
          (broadcast f ∷ [])
          s.report
          (if b then count_checkpoint s else record_mismatch n f (count_checkpoint s)).report
  compared f current true = record {
    answered = omega arith;
    checked = omega arith;
    failed = omega arith;
  }
  compared f current false = record {
    answered = omega arith;
    checked = omega arith;
    failed = rw (length-append_one s.report.mismatches (n, f.roots)) (omega arith);
  }

  payload-Tallies :
      (p : Payload) → Gives (λ s'. Tallies (p ∷ []) s.report s'.report) (replay_payload w c n p s)
  unfolding replay_payload check_broadcast compare_current
  payload-Tallies (command cmd) = Gives-bind _ _ _ _ (Gives-any _) λ o _. outcome-Tallies cmd o
  payload-Tallies (broadcast f) =
      Gives-if _ _ _ _
        (Gives-pure _ _
          (record { answered = omega arith; checked = omega arith; failed = omega arith }))
        (Gives-bind _ _ _ _ (Gives-any _) λ current _. Gives-pure _ _ (compared f current _))
  payload-Tallies (other name) =
      Gives-pure _ _
        (record { answered = omega arith; checked = omega arith; failed = omega arith })
  payload-Tallies broken = Gives-raise _ _

-- ---- the loop

counted_one :
    (p : Payload) (payloads : List Payload)
    → (commands (p ∷ payloads) ≡ commands (p ∷ []) + commands payloads)
      × (broadcasts (p ∷ payloads) ≡ broadcasts (p ∷ []) + broadcasts payloads)
counted_one (command cmd) payloads = (omega arith, omega arith)
counted_one (broadcast f) payloads = (omega arith, omega arith)
counted_one (other name) payloads = (omega arith, omega arith)
counted_one broken payloads = (omega arith, omega arith)

one_after :
    (p : Payload) (payloads : List Payload) (a b d : RebuildReport)
    → Tallies (p ∷ []) a b
    → Tallies payloads b d
    → Tallies (p ∷ payloads) a d
one_after p payloads a b d h k =
    let (cs, bs) = counted_one p payloads in
    record {
      answered = omega (arith, h.answered, k.answered, cs);
      checked = omega (arith, h.checked, k.checked, bs);
      failed = omega (arith, h.failed, k.failed, h.checked, k.checked, bs);
    }

Gives-weaken :
    {A : Type 0} {P Q : A → Type 0}
    → (m : Session A) → ((a : A) → P a → Q a)
    → Gives P m
    → Gives Q m
Gives-weaken m f h = record { at = λ t. weak (m t).0 (h.at t) f }
  where
    weak :
        {A : Type 0} {P Q : A → Type 0} (o : Result A)
        → OnReturn P o
        → ((a : A) → P a → Q a)
        → OnReturn Q o
    weak (ok a) h f = f a h
    weak (err e) h f = tt

module _ (w : World) (clock : ℕ → ℕ) (c : Config) where
  replay_from-Tallies :
      (n : ℕ) (payloads : List Payload) (s : Replay)
      → Gives (Tallies payloads s.report) (replay_from w clock c n payloads s)
  unfolding replay_from
  replay_from-Tallies n [] s =
      Gives-pure _ _
        (record { answered = omega arith; checked = omega arith; failed = omega arith })
  replay_from-Tallies n (p ∷ payloads) s =
      Gives-bind _ _ _ _ (payload-Tallies (at_time w (clock n)) c n s p) λ s' h.
        Gives-weaken _ (λ d k. one_after p payloads s.report s'.report d h k)
          (replay_from-Tallies (suc n) payloads s')

  -- A replay that returns has applied or refused each command and checked each broadcast, and reports no
  -- more mismatches than broadcasts.
  pub replay-Tallies :
      (payloads : List Payload) (t u : Tables) (report report' : RebuildReport)
      → replay w clock c payloads report t ≡ (ok report', u)
      → Tallies payloads report report'
  unfolding replay
  replay-Tallies payloads t u report report' e =
      subst (OnReturn (Tallies payloads report)) (ap (λ r. r.0) e)
        ((replay_from-Tallies 1 payloads _).at t)
