-- ===== src/Authority/Create.antt =====
-- `apply_create` of src/gnr/db/authority.py (lines 279-350), guard by guard.
use grid_node_registry.Prelude.{
  Bool, not, Option, none, some, List, [], ◌∷◌, Text, codes, text_eq, ◌==◌, contains, is_some,
  if◌then◌else◌,
}
use grid_node_registry.Alias.{universe_of, parent_alias, is_forest_root}
use grid_node_registry.Sema.Enums.{GNodeStatus, pending, active, status_eq}
use grid_node_registry.Sema.GNode.{GNodeGt}
use grid_node_registry.Sema.Messages.{GNodeForest, GNodeCreateCmd}
use grid_node_registry.Registry.Models.{GNodeSql, AliasAssignmentSql, CommandLogSql, row_of_gt}
use grid_node_registry.Registry.Violations.{Violation}
use grid_node_registry.Registry.Validate.{validate_registry}
use grid_node_registry.Registry.Session.{
  Session, Refusal, Error, pure, raise, gets, raise_if, ◌>>=◌, ◌>>◌, transaction, create_error,
  wrong_universe, id_exists, alias_owned, parent_not_found, parent_not_live, violates, get_node,
  query_alias, get_claim, get_command, add_node, add_command, no_result_found,
}
use grid_node_registry.Registry.Ledger.{claim_alias}
use grid_node_registry.Authority.{World, Config, check_proof, get_forest, to_gt, new_forest}

-- GNodeCreateCmd.type_name
abbrev pub create_cmd : Text
create_cmd = codes "g.node.create.cmd"

unfoldable pub check_claim : GNodeGt → Option AliasAssignmentSql → Session (Unit {0})
unfolding text_eq
check_claim node none = pure tt
check_claim node (some claim) =
    raise_if (not (claim.g_node_id == node.g_node_id))
      (create_error (alias_owned node.alias claim.g_node_id))

abbrev parent_may : GNodeStatus → Bool
unfolding status_eq
parent_may s = contains (pending ∷ active ∷ []) s

unfoldable pub check_parent_row : GNodeGt → Option GNodeSql → Session (Unit {0})
unfolding status_eq
check_parent_row node none =
    raise (create_error (parent_not_found (parent_alias node.alias) node.alias))
check_parent_row node (some parent) =
    raise_if (not (parent_may parent.status))
      (create_error (parent_not_live (parent_alias node.alias) parent.status))

unfoldable pub check_parent : GNodeGt → Session (Unit {0})
check_parent node =
    if is_forest_root node.alias
    then pure tt
    else do check_parent_row node (← gets (query_alias (parent_alias node.alias)))

-- `if violations: raise …`
unfoldable pub refuse_violations : (Refusal → Error) → List Violation → Session (Unit {0})
refuse_violations error [] = pure tt
refuse_violations error (v ∷ vs) = raise (error (violates (v ∷ vs)))

-- s.get(GNodeSql, id).to_gt(), of a row that was just added
unfoldable pub row_to_gt : Option GNodeSql → Session GNodeGt
row_to_gt none = raise no_result_found
row_to_gt (some row) = to_gt row

module _ (w : World) (c : Config) where
  -- the guards that read the registry
  unfoldable pub create_guards : GNodeGt → Session (Unit {0})
  unfolding text_eq
  create_guards node = do
    raise_if (not (universe_of node.alias == c.universe))
        (create_error (wrong_universe (universe_of node.alias) c.universe))
    raise_if (← gets (λ t. is_some (get_node node.g_node_id t)))
        (create_error (id_exists node.g_node_id))
    check_claim node (← gets (get_claim node.alias))
    check_parent node

  -- the writes, the audit and the broadcast
  unfoldable pub create_writes : GNodeCreateCmd → Session GNodeForest
  create_writes cmd = do
    let node = cmd.new_node
    let payload = w.create_bytes cmd
    add_node (row_of_gt node)
    claim_alias node.alias node.g_node_id
    refuse_violations create_error (← gets (λ t. validate_registry t c.universe))
    add_command (record {
      command_hash = w.sha256_hex payload;
      type_name = create_cmd;
      payload = w.decode payload;
    })
    gt ← row_to_gt (← gets (get_node node.g_node_id))
    new_forest (node.alias ∷ []) (gt ∷ []) [] w.send_time_ms

  -- A command whose hash is in the log was applied already.
  unfoldable pub create_unless_logged : GNodeCreateCmd → Option CommandLogSql → Session GNodeForest
  create_unless_logged cmd (some logged) = get_forest w (cmd.new_node.alias ∷ [])
  create_unless_logged cmd none = do create_guards cmd.new_node; create_writes cmd

  unfoldable pub apply_create : GNodeCreateCmd → Session GNodeForest
  apply_create cmd = do
    check_proof w c cmd.proof create_error
    transaction
        (do create_unless_logged cmd (← gets (get_command (w.sha256_hex (w.create_bytes cmd)))))
