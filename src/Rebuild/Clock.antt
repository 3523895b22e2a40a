-- ===== src/Rebuild/Clock.antt =====
-- The clock of src/gnr/db/authority.py: the send time of a broadcast, and what does not depend on it.
use grid_node_registry.Prelude.{
  ℕ, ◌≡◌, refl, subst, true, Option, none, some, List, Text, text_eq, Bool-cases, inl, inr, all,
}
use grid_node_registry.Sema.Format.{is_left_right_dot, is_utc_milliseconds}
use grid_node_registry.Sema.GNode.{GNodeGt}
use grid_node_registry.Sema.Messages.{
  ConnectivityEdgeGt, GNodeForest, GNodeCreateCmd, GNodeReparentCmd, validate_forest,
}
use grid_node_registry.Registry.Models.{Tables, CommandLogSql}
use grid_node_registry.Registry.Session.{
  Result, ok, err, Error, Session, pure, raise, ◌>>=◌, continue, settle, transaction,
}
use grid_node_registry.Authority.{
  World, Config, get_forest, new_forest, forest_rows, validated, check_proof,
}
use grid_node_registry.Authority.Create.{
  apply_create, create_unless_logged, create_guards, create_writes,
}
use grid_node_registry.Authority.Reparent.{
  apply_reparent, reparent_unless_logged, reparent_guards, reparent_writes,
}
use grid_node_registry.Authority.Reachability.{Command, create, reparent, apply}
use grid_node_registry.Rebuild.Replay.{checkpoint_state, at_time}

abbrev pub SameState : GNodeForest → GNodeForest → Type 0
SameState f g = checkpoint_state f ≡ checkpoint_state g

-- Two outcomes that leave the same tables, with one exception or with related results.
abbrev pub Agree : {A : Type 0} → (A → A → Type 0) → Result A × Tables → Result A × Tables → Type 0
Agree R (ok a, t) (ok b, u) = R a b × (t ≡ u)
Agree R (err e, t) (err f, u) = (e ≡ f) × (t ≡ u)
Agree R (ok a, t) (err f, u) = ⊥
Agree R (err e, t) (ok b, u) = ⊥

pub record Agrees {A : Type 0} (R : A → A → Type 0) (m n : Session A) : Type 0 where
  pub at : (t : Tables) → Agree R (m t) (n t)

module _ {A : Type 0} (R : A → A → Type 0) where
  Agree-refl : (r : Result A × Tables) → ((a : A) → R a a) → Agree R r r
  Agree-refl (ok a, t) h = (h a, refl)
  Agree-refl (err e, t) h = (refl, refl)

  settle-Agree :
      (t : Tables) (r s : Result A × Tables) → Agree R r s → Agree R (settle t r) (settle t s)
  settle-Agree t (ok a, u) (ok b, v) h = h
  settle-Agree t (err e, u) (err f, v) h = (h.0, refl)
  settle-Agree t (ok a, u) (err f, v) h = absurd h
  settle-Agree t (err e, u) (ok b, v) h = absurd h

  Agrees-transaction : (m n : Session A) → Agrees R m n → Agrees R (transaction m) (transaction n)
  unfolding transaction
  Agrees-transaction m n h = record { at = λ t. settle-Agree t (m t) (n t) (h.at t) }

  Agrees-pure : (a b : A) → R a b → Agrees R (pure a) (pure b)
  unfolding pure
  Agrees-pure a b h = record { at = λ t. (h, refl) }

  Agrees-raise : (e : Error) → Agrees R (raise e) (raise e)
  unfolding raise
  Agrees-raise e = record { at = λ t. (refl, refl) }

module _ {A B : Type 0} (R : B → B → Type 0) where
  continue-Agree :
      (f g : A → Session B) (r : Result A × Tables)
      → ((a : A) → Agrees R (f a) (g a))
      → Agree R (continue f r) (continue g r)
  continue-Agree f g (ok a, t) h = (h a).at t
  continue-Agree f g (err e, t) h = (refl, refl)

  -- The same session first.
  Agrees-then :
      (m : Session A) (f g : A → Session B)
      → ((a : A) → Agrees R (f a) (g a))
      → Agrees R (m >>= f) (m >>= g)
  unfolding ◌>>=◌
  Agrees-then m f g h = record { at = λ t. continue-Agree f g (m t) h }

module _ {A B : Type 0} (S : A → A → Type 0) (R : B → B → Type 0) where
  continue_both :
      (f g : A → Session B) (r s : Result A × Tables)
      → Agree S r s
      → ((a b : A) → S a b → Agrees R (f a) (g b))
      → Agree R (continue f r) (continue g s)
  continue_both f g (ok a, t) (ok b, u) (s, e) h =
      subst (λ x. Agree R (f a t) (g b x)) e ((h a b s).at t)
  continue_both f g (err e, t) (err e', u) k h = k
  continue_both f g (ok a, t) (err e', u) k h = absurd k
  continue_both f g (err e, t) (ok b, u) k h = absurd k

  Agrees-bind :
      (m n : Session A) (f g : A → Session B)
      → Agrees S m n
      → ((a b : A) → S a b → Agrees R (f a) (g b))
      → Agrees R (m >>= f) (n >>= g)
  unfolding ◌>>=◌
  Agrees-bind m n f g k h = record { at = λ t. continue_both f g (m t) (n t) (k.at t) h }

module _ (roots : List Text) (nodes : List GNodeGt) (edges : List ConnectivityEdgeGt) (a b : ℕ)
    (ha : is_utc_milliseconds a ≡ true) (hb : is_utc_milliseconds b ≡ true) where
  new_forest-Agrees :
      Agrees SameState (new_forest roots nodes edges a) (new_forest roots nodes edges b)
  unfolding new_forest validated validate_forest checkpoint_state
  new_forest-Agrees = elim (Bool-cases (all is_left_right_dot roots)) [
    | inl e ↦ rw (e, ha, hb) (Agrees-pure _ _ _ refl)
    | inr e ↦ rw e (Agrees-raise _ _)
  ]

module _ (w : World) (c : Config) (a b : ℕ) (ha : is_utc_milliseconds a ≡ true)
    (hb : is_utc_milliseconds b ≡ true) where
  pub get_forest-Agrees :
      (roots : List Text)
      → Agrees SameState (get_forest (at_time w a) roots) (get_forest (at_time w b) roots)
  unfolding get_forest forest_rows
  get_forest-Agrees roots = Agrees-then _ _ _ _ λ rows. Agrees-then _ _ _ _ λ edges.
      Agrees-then _ _ _ _ λ nodes. Agrees-then _ _ _ _ λ edge_gts. new_forest-Agrees _ _ _ a b ha hb

  create_writes-Agrees :
      (cmd : GNodeCreateCmd)
      → Agrees SameState (create_writes (at_time w a) c cmd) (create_writes (at_time w b) c cmd)
  unfolding create_writes
  create_writes-Agrees cmd = Agrees-then _ _ _ _ λ _. Agrees-then _ _ _ _ λ _.
      Agrees-then _ _ _ _ λ vs. Agrees-then _ _ _ _ λ _.
        Agrees-then _ _ _ _ λ _.
          Agrees-then _ _ _ _ λ row. Agrees-then _ _ _ _ λ gt. new_forest-Agrees _ _ _ a b ha hb

  reparent_writes-Agrees :
      (cmd : GNodeReparentCmd)
      → Agrees SameState (reparent_writes (at_time w a) c cmd) (reparent_writes (at_time w b) c cmd)
  unfolding reparent_writes
  reparent_writes-Agrees cmd = Agrees-then _ _ _ _ λ _. Agrees-then _ _ _ _ λ _.
      Agrees-then _ _ _ _ λ updated. Agrees-then _ _ _ _ λ vs. Agrees-then _ _ _ _ λ _.
        Agrees-then _ _ _ _ λ edges. Agrees-then _ _ _ _ λ rows. Agrees-then _ _ _ _ λ nodes.
          Agrees-then _ _ _ _ λ edge_gts.
            Agrees-bind SameState SameState _ _ _ _ (new_forest-Agrees _ _ _ a b ha hb)
              λ f g h. Agrees-then _ _ _ _ λ _. Agrees-pure _ _ _ h

  create-Agrees :
      (cmd : GNodeCreateCmd) (o : Option CommandLogSql)
      → Agrees SameState
          (create_unless_logged (at_time w a) c cmd o)
          (create_unless_logged (at_time w b) c cmd o)
  unfolding create_unless_logged create_guards
  create-Agrees cmd none = Agrees-then _ _ _ _ λ _. create_writes-Agrees cmd
  create-Agrees cmd (some row) = get_forest-Agrees _

  reparent-Agrees :
      (cmd : GNodeReparentCmd) (o : Option CommandLogSql)
      → Agrees SameState
          (reparent_unless_logged (at_time w a) c cmd o)
          (reparent_unless_logged (at_time w b) c cmd o)
  unfolding reparent_unless_logged reparent_guards
  reparent-Agrees cmd none = Agrees-then _ _ _ _ λ _. reparent_writes-Agrees cmd
  reparent-Agrees cmd (some row) = get_forest-Agrees _

  -- The model's tables have no timestamps. On these a command has the same effect, or raises
  -- the same error, at any two valid times; its broadcasts differ in nothing but the send time.
  pub apply-Agrees :
      (cmd : Command) → Agrees SameState (apply (at_time w a) c cmd) (apply (at_time w b) c cmd)
  unfolding apply apply_create apply_reparent check_proof
  apply-Agrees (create cmd) =
      Agrees-then _ _ _ _ λ _. Agrees-transaction _ _ _ (Agrees-then _ _ _ _ (create-Agrees cmd))
  apply-Agrees (reparent cmd) =
      Agrees-then _ _ _ _ λ _. Agrees-transaction _ _ _ (Agrees-then _ _ _ _ (reparent-Agrees cmd))
