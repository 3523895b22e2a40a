-- ===== src/Cli/Operator/Outcome.antt =====
-- `gnr create` of src/gnr/cli.py against the service of src/gnr/gnr_rabbit.py and the API of
-- src/gnr/api.py: what the operator learns is what the registry has done.
use grid_node_registry.Prelude.{
  ℕ, Bool, false, ◌≡◌, refl, sym, ◌∙◌, subst, ◌⊎◌, inl, inr, true, Option, none, some, List, [],
  ◌∷◌, Text, text_eq, ==_refl, find?_unique, In, In-append_right,
}
use grid_node_registry.Sema.GNode.{GNodeGt, validate}
use grid_node_registry.Sema.GNode.Axioms.{validate-IsValid}
use grid_node_registry.Sema.Messages.{GNodeForest, GNodeCreateCmd, validate_create}
use grid_node_registry.Registry.Models.{Tables, row_of_gt, gt_of_row}
use grid_node_registry.Registry.Session.{
  Result, ok, err, Refusal, create_error, reparent_error, pure, ◌>>=◌, get_command, query_alias,
}
use grid_node_registry.Authority.{
  World, Config, resolve_alias, current_or_past, optional_gt, to_gt, validated,
}
use grid_node_registry.Authority.Create.{create_cmd}
use grid_node_registry.Authority.Effects.{apply_create-effect}
use grid_node_registry.Authority.Consistency.{IsRegistry}
use grid_node_registry.Authority.Reachability.{
  Command, create, apply, start, step, Reach-IsRegistry, apply-atomic,
}
use grid_node_registry.Authority.Success.{IsCreatable, created_forest, apply_create-succeeds}
use grid_node_registry.Api.{Response, success, g_node_by_alias, found_or_404}
use grid_node_registry.Service.{
  Verdict, ack, nack, Outgoing, topology, direct, radio_channel, RoutingEnvelope, process_message,
  apply_and_broadcast, answer, reply,
}
use grid_node_registry.Cli.{CreateArgs, created_node}
use grid_node_registry.Cli.Operator.{
  verdict_of, note_messages, Operation, registered, exit_of, visible_within, command_of, publish,
  confirm_and_publish, run_create,
}

sent_is : (a b : List Outgoing) → ok a ≡ ok b → a ≡ b
sent_is a b k = cc

module _ (w : World) (c : Config) (cmd : GNodeCreateCmd) (t : Tables) (h : IsRegistry c.universe t)
    (valid : validate cmd.new_node ≡ none)
    (fresh : get_command (w.sha256_hex (w.create_bytes cmd)) t ≡ none) where
  abbrev after : Tables
  after = (apply w c (create cmd) t).1

  row_there :
      (f : GNodeForest)
      → (apply w c (create cmd) t).0 ≡ ok f
      → In (row_of_gt cmd.new_node) after.g_nodes
  unfolding apply
  row_there f e =
      subst (In (row_of_gt cmd.new_node)) (sym (apply_create-effect w c cmd t f fresh e).0)
        (In-append_right _ t.g_nodes _ (inl refl))

  row_found :
      (f : GNodeForest)
      → (apply w c (create cmd) t).0 ≡ ok f
      → query_alias cmd.new_node.alias after ≡ some (row_of_gt cmd.new_node)
  unfolding query_alias row_of_gt
  row_found f e =
      let k = Reach-IsRegistry c t after h (step w (create cmd) t start) in
      find?_unique (λ n. n.alias) after.g_nodes (row_of_gt cmd.new_node) k.consistent.keyed.aliases
        (row_there f e)

  -- A node that was just created is what the read API answers for its alias.
  node_visible :
      (f : GNodeForest)
      → (apply w c (create cmd) t).0 ≡ ok f
      → g_node_by_alias cmd.new_node.alias after ≡ success cmd.new_node
  unfolding g_node_by_alias resolve_alias ◌>>=◌ current_or_past optional_gt to_gt validated
      gt_of_row row_of_gt found_or_404 pure
  node_visible f e =
      rw ((validate-IsValid cmd.new_node valid).alias_format, row_found f e, valid) refl

  abbrev chash : Text
  chash = w.sha256_hex (w.create_bytes cmd)

  -- What the publisher has under the hash of its command, when it got `sent`.
  abbrev heard : List Outgoing → Option Verdict
  heard sent = verdict_of chash (note_messages sent [])

  -- An acknowledged node is visible; a refused command has left the tables as they were.
  abbrev pub IsTrue : Option Verdict → Tables → Type 0
  IsTrue verdict u =
      ((verdict ≡ some (ack (record { command_hash = chash })))
        × (g_node_by_alias cmd.new_node.alias u ≡ success cmd.new_node))
      ⊎ ((reason : Text) × (verdict
            ≡ some (nack (record { command_hash = chash; reason = reason })))
          × (u ≡ t))

  module _ (reason_text : Refusal → Text) (class alias : Text) where
    abbrev sender : RoutingEnvelope
    sender = record { from_class = some class; from_alias = alias }

    answered :
        (r : Result GNodeForest) (sent : List Outgoing)
        → (apply w c (create cmd) t).0 ≡ r
        → answer reason_text sender (create cmd) chash r ≡ ok sent
        → IsTrue (heard sent) after
    unfolding answer reply verdict_of note_messages
    answered (ok f) sent e k = inl (rw (← sent_is _ _ k, ==_refl chash) refl, node_visible f e)
    answered (err (create_error x)) sent e k = inr (
      reason_text x,
      rw (← sent_is _ _ k, ==_refl chash) refl,
      apply-atomic w c (create cmd) t _ e,
    )
    answered (err (reparent_error x)) sent e k = inr (
      reason_text x,
      rw (← sent_is _ _ k, ==_refl chash) refl,
      apply-atomic w c (create cmd) t _ e,
    )
    answered (err x) sent e k = cc k

    -- What the operator hears of a new and valid create command is true: where the service does not end
    -- with an exception, either the command is acknowledged and its node is what the API answers for
    -- its alias, or it is refused with a reason and the tables are as they were.
    pub process_message-IsTrue :
        (read : List ℕ → Option Command) (sent : List Outgoing)
        → read (w.create_bytes cmd) ≡ some (create cmd)
        → (process_message w c reason_text read sender create_cmd (w.create_bytes cmd) t).0
          ≡ ok sent
        → IsTrue
            (heard sent)
            (process_message w c reason_text read sender create_cmd (w.create_bytes cmd) t).1
    unfolding process_message apply_and_broadcast
    process_message-IsTrue read sent e k =
        rw e (answered (apply w c (create cmd) t).0 sent refl (rw e at k))

-- The API answers for an alias with a node.
abbrev pub is_found : Response GNodeGt → Bool
is_found (success node) = true
is_found _ = false

module _ (w : World) (c : Config) (t : Tables) (fresh_id proof : Text) (args : CreateArgs)
    (reason_text : Refusal → Text) (read : List ℕ → Option Command) (class alias : Text) where
  abbrev pub command : GNodeCreateCmd
  command = command_of (created_node fresh_id args) proof

  abbrev pub served : Result (List Outgoing) × Tables
  served =
      process_message w c reason_text read (record { from_class = some class; from_alias = alias })
        create_cmd (w.create_bytes command) t

  -- The alias is new, the operator confirms, the broker is reached, and the API is polled on the tables
  -- that the registry has left.
  abbrev pub operation : List Outgoing → List Bool → Operation
  operation messages later = record {
    existing = none;
    confirmation = [];
    proof = proof;
    consuming = true;
    messages = messages;
    polls = is_found (g_node_by_alias args.alias served.1) ∷ later;
  }

  applied :
      IsRegistry c.universe t
      → IsCreatable w c command t
      → (apply w c (create command) t).0 ≡ ok (created_forest w c command t)
  unfolding apply
  applied h k = rw (apply_create-succeeds w c command t h.consistent k) refl

  visible :
      IsRegistry c.universe t
      → IsCreatable w c command t
      → read (w.create_bytes command) ≡ some (create command)
      → is_found (g_node_by_alias args.alias served.1) ≡ true
  unfolding process_message apply_and_broadcast created_node
  visible h k r =
      rw
        (
          r,
          node_visible w c command t h k.valid k.unlogged (created_forest w c command t)
              (applied h k),
        )
        refl

  acknowledged :
      (sent : List Outgoing)
      → IsRegistry c.universe t
      → IsCreatable w c command t
      → read (w.create_bytes command) ≡ some (create command)
      → served.0 ≡ ok sent
      → verdict_of (w.sha256_hex (w.create_bytes command)) (note_messages sent [])
        ≡ some (ack (record { command_hash = w.sha256_hex (w.create_bytes command) }))
  unfolding process_message apply_and_broadcast answer reply verdict_of note_messages
  acknowledged sent h k r e =
      let given : served.0
          ≡ ok (
              topology (radio_channel (create command)) (created_forest w c command t)
              ∷ direct class alias
                  (ack (record { command_hash = w.sha256_hex (w.create_bytes command) }))
              ∷ []) =
        rw (r, applied h k) refl in
      rw (← sent_is _ _ (sym given ∙ e), ==_refl (w.sha256_hex (w.create_bytes command))) refl

  -- Where the registry can apply the command, the operator has confirmed it, the broker is reached, and
  -- the replies of the registry and its API arrive, `gnr create` ends with its node registered.
  pub run_create-registers :
      (sent : List Outgoing) (later : List Bool)
      → IsRegistry c.universe t
      → IsCreatable w c command t
      → read (w.create_bytes command) ≡ some (create command)
      → served.0 ≡ ok sent
      → run_create w (operation sent later) fresh_id args ≡ registered
  unfolding run_create confirm_and_publish publish exit_of visible_within validate_create
      created_node
  run_create-registers sent later h k r e =
      rw (k.valid, acknowledged sent h k r e, visible h k r) refl
