-- ===== src/Registry/Ledger.antt =====
-- src/gnr/db/alias_ledger.py: `claim_alias`, the write primitive of the ledger of aliases.
use grid_node_registry.Prelude.{not, Option, none, some, [], ◌∷◌, ◌++◌, Text, text_eq, ◌==◌, any}
use grid_node_registry.Registry.Models.{GNodeSql, AliasAssignmentSql}
use grid_node_registry.Registry.Session.{
  Session, pure, raise, gets, modify, raise_if, ◌>>=◌, ◌>>◌, get_claim, integrity_error,
  no_result_found, alias_already_owned, alias_assignment_fkey,
}

-- INSERT … ON CONFLICT (alias) DO NOTHING; the foreign key is checked where a row is inserted.
unfoldable pub insert_claim : Text → Text → Option AliasAssignmentSql → Session (Unit {0})
unfolding text_eq
insert_claim alias g_node_id (some claim) = pure tt
insert_claim alias g_node_id none = do
  raise_if (← gets (λ t. not (any (λ (n : GNodeSql). n.id == g_node_id) t.g_nodes)))
      (integrity_error alias_assignment_fkey)
  modify (λ t. record t {
    alias_assignment = t.alias_assignment ++ record { alias = alias; g_node_id = g_node_id } ∷ [];
  })

-- The test on the owner that the SELECT returns (`scalar_one`).
unfoldable pub check_owner : Text → Text → Option AliasAssignmentSql → Session (Unit {0})
unfolding text_eq
check_owner alias g_node_id none = raise no_result_found
check_owner alias g_node_id (some claim) =
    raise_if (not (claim.g_node_id == g_node_id))
      (alias_already_owned alias claim.g_node_id g_node_id)

unfoldable pub claim_alias : Text → Text → Session (Unit {0})
unfolding get_claim
claim_alias alias g_node_id = do
  insert_claim alias g_node_id (← gets (get_claim alias))
  check_owner alias g_node_id (← gets (get_claim alias))
