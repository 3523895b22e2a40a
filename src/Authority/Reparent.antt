-- ===== src/Authority/Reparent.antt =====
-- `apply_reparent` and `_rewrite_prefix` of src/gnr/db/authority.py (lines 352-494).
use grid_node_registry.Prelude.{
  Bool, false, not, ◌&&◌, Option, none, some, List, [], ◌∷◌, ◌++◌, map, Text, codes, text_eq, ◌==◌,
  contains, any, if◌then◌else◌,
}
use grid_node_registry.Alias.{
  universe_of, parent_alias, is_forest_root, rewrite_alias, moved_child_new_prefix,
}
use grid_node_registry.Sema.GNode.{GNodeGt}
use grid_node_registry.Sema.Messages.{GNodeForest, GNodeReparentCmd}
use grid_node_registry.Registry.Models.{
  Tables, GNodeSql, AliasAssignmentSql, CommandLogSql, row_of_gt,
}
use grid_node_registry.Registry.Validate.{validate_registry}
use grid_node_registry.Registry.Session.{
  Session, pure, raise, gets, modify, raise_if, ◌>>=◌, ◌>>◌, transaction, reparent_error,
  wrong_universe, parent_not_found, new_node_is_root, child_not_found, alias_collision,
  integrity_error, g_nodes_alias_key, get_node, query_alias, get_command, add_node, add_command,
}
use grid_node_registry.Registry.Ledger.{claim_alias}
use grid_node_registry.Authority.{
  World, Config, check_proof, get_forest, to_gts, edges_to_gts, new_forest, subtree_rows,
  edges_among,
}
use grid_node_registry.Authority.Create.{refuse_violations}

-- GNodeReparentCmd.type_name
abbrev pub reparent_cmd : Text
reparent_cmd = codes "g.node.reparent.cmd"

-- A dict from aliases to ids.
abbrev pub Claims : Type 0
Claims = List (Text × Text)

-- d[k] = v
unfoldable pub put : Text → Text → Claims → Claims
unfolding text_eq
put k v [] = (k, v) ∷ []
put k v ((j, u) ∷ d) = if j == k then (k, v) ∷ d else (j, u) ∷ put k v d

unfoldable pub lookup : Text → Claims → Option Text
unfolding text_eq
lookup k [] = none
lookup k ((j, u) ∷ d) = if j == k then some u else lookup k d

-- The aliases that the rewrite of one subtree generates.
unfoldable pub intend_rows : Text → Text → List GNodeSql → Claims → Claims
unfolding put
intend_rows old_prefix new_prefix [] d = d
intend_rows old_prefix new_prefix (row ∷ rows) d =
    intend_rows old_prefix new_prefix rows
      (put (rewrite_alias row.alias old_prefix new_prefix) row.id d)

-- A child that is looked up by its id.
unfoldable pub require_child : Text → Option GNodeSql → Session GNodeSql
require_child child_id none = raise (reparent_error (child_not_found child_id))
require_child child_id (some child) = pure child

unfoldable pub intend : Text → List Text → Claims → Session Claims
unfolding intend_rows
intend n_alias [] d = pure d
intend n_alias (child_id ∷ ids) d = do
  child ← require_child child_id (← gets (get_node child_id))
  rows ← gets (subtree_rows child.alias)
  intend n_alias ids (intend_rows child.alias (moved_child_new_prefix n_alias child.alias) rows d)

-- The claim binds an intended alias to another id.
unfoldable pub collides : Claims → AliasAssignmentSql → Bool
unfolding text_eq lookup
collides d claim = elim (lookup claim.alias d) [
  | none ↦ false
  | some id ↦ not (claim.g_node_id == id)
]

unfoldable pub collisions : Claims → List AliasAssignmentSql → List (Text × Text)
unfolding collides
collisions d [] = []
collisions d (claim ∷ claims) =
    let rest = collisions d claims in
    if collides d claim then (claim.alias, claim.g_node_id) ∷ rest else rest

unfoldable pub refuse_collisions : List (Text × Text) → Session (Unit {0})
refuse_collisions [] = pure tt
refuse_collisions (x ∷ xs) = raise (reparent_error (alias_collision (x ∷ xs)))

-- node.prev_alias = node.alias; node.alias = new_alias
abbrev pub renamed : Text → GNodeSql → GNodeSql
renamed new_alias n = record n { alias = new_alias; prev_alias = some n.alias }

unfoldable pub rename_row : Text → Text → GNodeSql → GNodeSql
unfolding text_eq
rename_row id new_alias n = if n.id == id then renamed new_alias n else n

-- The flush of the two assignments, under the unique index on `alias`.
unfoldable pub rename : Text → Text → Session (Unit {0})
unfolding text_eq rename_row
rename id new_alias = do
  raise_if (← gets (λ t. any (λ n. not (n.id == id) && n.alias == new_alias) t.g_nodes))
      (integrity_error g_nodes_alias_key)
  modify (λ t. record t { g_nodes = map (rename_row id new_alias) t.g_nodes })

-- The keys of the dict `updated`, in order of insertion; its values are the rows themselves.
unfoldable pub note : Text → List Text → List Text
unfolding text_eq
note id updated = if contains updated id then updated else updated ++ id ∷ []

-- The loop of `_rewrite_prefix` over the rows that the query returned.
unfoldable pub rewrite_rows : Text → Text → List GNodeSql → List Text → Session (List Text)
unfolding note
rewrite_rows old_prefix new_prefix [] updated = pure updated
rewrite_rows old_prefix new_prefix (row ∷ rows) updated = do
  let new_alias = rewrite_alias row.alias old_prefix new_prefix
  rename row.id new_alias
  claim_alias new_alias row.id
  rewrite_rows old_prefix new_prefix rows (note row.id updated)

unfoldable pub rewrite_prefix : Text → Text → List Text → Session (List Text)
rewrite_prefix old_prefix new_prefix updated = do
  rows ← gets (subtree_rows old_prefix)
  rewrite_rows old_prefix new_prefix rows updated

unfoldable pub move_children : Text → List Text → List Text → Session (List Text)
move_children n_alias [] updated = pure updated
move_children n_alias (child_id ∷ ids) updated = do
  child ← require_child child_id (← gets (get_node child_id))
  updated' ← rewrite_prefix child.alias (moved_child_new_prefix n_alias child.alias) updated
  move_children n_alias ids updated'

-- updated.values()
unfoldable pub updated_rows : List Text → Tables → List GNodeSql
updated_rows [] t = []
updated_rows (id ∷ ids) t =
    let rest = updated_rows ids t in elim (get_node id t) [ none ↦ rest | some row ↦ row ∷ rest ]

unfoldable pub require_parent : GNodeGt → Option GNodeSql → Session (Unit {0})
require_parent n none = raise (reparent_error (parent_not_found (parent_alias n.alias) n.alias))
require_parent n (some e) = pure tt

module _ (w : World) (c : Config) where
  unfoldable pub reparent_guards : GNodeReparentCmd → Session (Unit {0})
  unfolding text_eq
  reparent_guards cmd = do
    let n = cmd.new_node
    raise_if (not (universe_of n.alias == c.universe))
        (reparent_error (wrong_universe (universe_of n.alias) c.universe))
    raise_if (is_forest_root n.alias) (reparent_error (new_node_is_root n.alias))
    require_parent n (← gets (query_alias (parent_alias n.alias)))
    intended ← intend n.alias cmd.moved_child_g_node_ids ((n.alias, n.g_node_id) ∷ [])
    refuse_collisions (← gets (λ t. collisions intended t.alias_assignment))

  unfoldable pub reparent_writes : GNodeReparentCmd → Session GNodeForest
  reparent_writes cmd = do
    let n = cmd.new_node
    let payload = w.reparent_bytes cmd
    add_node (row_of_gt n)
    claim_alias n.alias n.g_node_id
    updated ← move_children n.alias cmd.moved_child_g_node_ids (n.g_node_id ∷ [])
    refuse_violations reparent_error (← gets (λ t. validate_registry t c.universe))
    edges ← gets (edges_among updated)
    nodes ← to_gts (← gets (updated_rows updated))
    edge_gts ← edges_to_gts edges
    broadcast ← new_forest (n.alias ∷ []) nodes edge_gts w.send_time_ms
    add_command (record {
      command_hash = w.sha256_hex payload;
      type_name = reparent_cmd;
      payload = w.decode payload;
    })
    pure broadcast

  unfoldable pub reparent_unless_logged :
      GNodeReparentCmd → Option CommandLogSql → Session GNodeForest
  reparent_unless_logged cmd (some logged) = get_forest w (cmd.new_node.alias ∷ [])
  reparent_unless_logged cmd none = do reparent_guards cmd; reparent_writes cmd

  unfoldable pub apply_reparent : GNodeReparentCmd → Session GNodeForest
  apply_reparent cmd = do
    check_proof w c cmd.proof reparent_error
    transaction
        (do reparent_unless_logged cmd (← gets (get_command (w.sha256_hex (w.reparent_bytes cmd)))))
