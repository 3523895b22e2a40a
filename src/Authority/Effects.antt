-- ===== src/Authority/Effects.antt =====
-- What a successful command of src/gnr/db/authority.py has written.
use grid_node_registry.Prelude.{
  ◌≡◌, refl, ap, ◌∙◌, arith, Option, none, some, List, [], ◌∷◌, ◌++◌, Text, text_eq,
}
use grid_node_registry.Sema.Messages.{GNodeForest, GNodeCreateCmd}
use grid_node_registry.Registry.Models.{
  Tables, GNodeSql, AliasAssignmentSql, CommandLogSql, row_of_gt,
}
use grid_node_registry.Registry.Violations.{Violation}
use grid_node_registry.Registry.Session.{
  Result, ok, err, Error, Refusal, get_command, add_node, add_command,
}
use grid_node_registry.Registry.Ledger.{claim_alias, insert_claim, check_owner}
use grid_node_registry.Registry.Keeps.{
  After, Keeps, Keeps-pure, Keeps-raise, Keeps-raise_if, Keeps-gets, Keeps-bind, Keeps-modify,
  Keeps-After-gets, Keeps-after_guard, Keeps-weaken, Keeps-transaction,
}
use grid_node_registry.Registry.Reads.{Reads, Reads-Keeps, Reads-pure, Reads-raise}
use grid_node_registry.Authority.{World, Config}
use grid_node_registry.Authority.Create.{
  create_cmd, refuse_violations, create_writes, create_unless_logged, apply_create,
}
use grid_node_registry.Authority.Reads.{
  plain_reads, row_to_gt-Reads, check_proof-Reads, create_guards-Reads,
}

-- The nodes and the log of the tables.
abbrev Holds : List GNodeSql → List CommandLogSql → Tables → Type 0
Holds g l t = (t.g_nodes ≡ g) × (t.command_log ≡ l)

module _ (g : List GNodeSql) (l : List CommandLogSql) where
  adds_node : (row : GNodeSql) → Keeps (Holds g l) (Holds (g ++ row ∷ []) l) (add_node row)
  unfolding add_node
  adds_node row = Keeps-after_guard _ _ _ (
      Keeps-after_guard _ _ _ (
        Keeps-after_guard _ _ _
          (Keeps-modify _ λ t (((h, i), a), p). (ap (λ x. x ++ row ∷ []) h.0, h.1))))

  adds_command :
      (row : CommandLogSql) → Keeps (Holds g l) (Holds g (l ++ row ∷ [])) (add_command row)
  unfolding add_command
  adds_command row =
      Keeps-after_guard _ _ _ (Keeps-modify _ λ t (h, f). (h.0, ap (λ x. x ++ row ∷ []) h.1))

  inserts_only_claims :
      (alias id : Text) (o : Option AliasAssignmentSql)
      → Keeps (Holds g l) (Holds g l) (insert_claim alias id o)
  unfolding insert_claim
  inserts_only_claims alias id none = Keeps-after_guard _ _ _ (Keeps-modify _ λ t (h, f). h)
  inserts_only_claims alias id (some c) = Keeps-pure tt

  checks_only :
      (alias id : Text) (o : Option AliasAssignmentSql)
      → Keeps (Holds g l) (Holds g l) (check_owner alias id o)
  unfolding check_owner
  checks_only alias id none = Keeps-raise _
  checks_only alias id (some c) = Keeps-raise_if _ _

  claims_only : (alias id : Text) → Keeps (Holds g l) (Holds g l) (claim_alias alias id)
  unfolding claim_alias
  claims_only alias id = Keeps-bind _ _ (Keeps-gets _) λ o.
      Keeps-bind _ _ (inserts_only_claims alias id o)
        λ _. Keeps-bind _ _ (Keeps-gets _) λ o'. checks_only alias id o'

pub refuse_violations-Reads :
    (error : Refusal → Error) (vs : List Violation) → Reads (refuse_violations error vs)
unfolding refuse_violations
refuse_violations-Reads error [] = Reads-pure _
refuse_violations-Reads error (v ∷ vs) = Reads-raise _

pub outcome :
    (Q : Tables → Type 0) (r : Result GNodeForest × Tables) (f : GNodeForest)
    → After Q r
    → r.0 ≡ ok f
    → Q r.1
outcome Q (ok a, u) f h e = h
outcome Q (err x, u) f h e = ground arith

module _ (w : World) (c : Config) (cmd : GNodeCreateCmd) where
  -- The entry of the command in the log.
  abbrev pub created_entry : CommandLogSql
  created_entry = record {
    command_hash = w.sha256_hex (w.create_bytes cmd);
    type_name = create_cmd;
    payload = w.decode (w.create_bytes cmd);
  }

  writes_one_node :
      (g : List GNodeSql) (l : List CommandLogSql)
      → Keeps
          (Holds g l)
          (Holds (g ++ row_of_gt cmd.new_node ∷ []) (l ++ created_entry ∷ []))
          (create_writes w c cmd)
  unfolding create_writes row_of_gt
  writes_one_node g l = Keeps-bind _ _ (adds_node g l _) λ _.
      Keeps-bind _ _ (claims_only _ l _ _) λ _. Keeps-bind _ _ (Keeps-gets _) λ vs.
        Keeps-bind _ _ (Reads-Keeps _ _ (refuse_violations-Reads _ vs)) λ _.
          Keeps-bind _ _ (adds_command _ l _)
            λ _. Reads-Keeps _ _ (search (plain_reads, row_to_gt-Reads))

  unlogged :
      (t : Tables) (o : Option CommandLogSql)
      → o ≡ none
      → Keeps
          (λ u. u ≡ t)
          (Holds (t.g_nodes ++ row_of_gt cmd.new_node ∷ []) (t.command_log ++ created_entry ∷ []))
          (create_unless_logged w c cmd o)
  unfolding create_unless_logged
  unlogged t none e = Keeps-bind _ _ (Reads-Keeps _ _ (create_guards-Reads w c cmd.new_node)) λ _.
      Keeps-weaken _ (λ u h. (ap (λ x. x.g_nodes) h, ap (λ x. x.command_log) h))
        (writes_one_node t.g_nodes t.command_log)
  unlogged t (some row) e = ground arith

  creates_one_node :
      (t : Tables)
      → get_command (w.sha256_hex (w.create_bytes cmd)) t ≡ none
      → Keeps
          (λ u. u ≡ t)
          (Holds (t.g_nodes ++ row_of_gt cmd.new_node ∷ []) (t.command_log ++ created_entry ∷ []))
          (apply_create w c cmd)
  unfolding apply_create
  creates_one_node t fresh = Keeps-bind _ _ (Reads-Keeps _ _ (check_proof-Reads w c _ _)) λ _.
      Keeps-transaction _ (
        Keeps-After-gets _ (create_unless_logged w c cmd) λ u e.
          (unlogged t _ (ap (get_command (w.sha256_hex (w.create_bytes cmd))) e ∙ fresh)).at u e)

  -- A create command that succeeds and was not logged has appended its node to the nodes and one entry
  -- with its hash to the log.
  pub apply_create-effect :
      (t : Tables) (f : GNodeForest)
      → get_command (w.sha256_hex (w.create_bytes cmd)) t ≡ none
      → (apply_create w c cmd t).0 ≡ ok f
      → ((apply_create w c cmd t).1.g_nodes ≡ t.g_nodes ++ row_of_gt cmd.new_node ∷ [])
        × ((apply_create w c cmd t).1.command_log ≡ t.command_log ++ created_entry ∷ [])
  apply_create-effect t f fresh e =
      outcome _ (apply_create w c cmd t) f ((creates_one_node t fresh).at t refl) e
