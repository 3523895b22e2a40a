-- ===== src/Authority/Reads.antt =====
-- The reads of `PostgresAuthority` (src/gnr/db/authority.py) and the guards of its mutations, as
-- sessions that only read.
use grid_node_registry.Prelude.{ℕ, Option, none, some, List, [], ◌∷◌, Text, text_eq}
use grid_node_registry.Sema.GNode.{GNodeGt, Invalid}
use grid_node_registry.Sema.Messages.{GNodeReparentCmd, ConnectivityEdgeGt}
use grid_node_registry.Registry.Models.{GNodeSql, ConnectivityEdgeSql, AliasAssignmentSql}
use grid_node_registry.Registry.Session.{Refusal, Error}
use grid_node_registry.Registry.Reads.{
  Reads, Reads-pure, Reads-bind, Reads-raise, Reads-of_if, reading_rules,
}
use grid_node_registry.Authority.{
  World, Config, validated, to_gt, to_gts, edges_to_gts, new_forest, get_forest, check_proof,
  optional_gt,
}
use grid_node_registry.Authority.Create.{
  check_claim, check_parent_row, check_parent, row_to_gt, create_guards,
}
use grid_node_registry.Authority.Reparent.{
  Claims, require_child, intend, refuse_collisions, require_parent, reparent_guards,
}

validated-Reads : {A : Type 0} (a : A) (e : Option Invalid) → Reads (validated a e)
unfolding validated
validated-Reads a none = Reads-pure a
validated-Reads a (some e) = Reads-raise _

pub to_gt-Reads : (row : GNodeSql) → Reads (to_gt row)
unfolding to_gt
to_gt-Reads row = validated-Reads _ _

pub to_gts-Reads : (rows : List GNodeSql) → Reads (to_gts rows)
unfolding to_gts
to_gts-Reads [] = Reads-pure _
to_gts-Reads (row ∷ rows) =
    Reads-bind _ _ (to_gt-Reads row) λ gt. Reads-bind _ _ (to_gts-Reads rows) λ gts. Reads-pure _

pub edges_to_gts-Reads : (rows : List ConnectivityEdgeSql) → Reads (edges_to_gts rows)
unfolding edges_to_gts
edges_to_gts-Reads [] = Reads-pure _
edges_to_gts-Reads (row ∷ rows) =
    Reads-bind _ _ (validated-Reads _ _)
      λ gt. Reads-bind _ _ (edges_to_gts-Reads rows) λ gts. Reads-pure _

pub new_forest-Reads :
    (roots : List Text) (nodes : List GNodeGt) (edges : List ConnectivityEdgeGt) (time : ℕ)
    → Reads (new_forest roots nodes edges time)
unfolding new_forest
new_forest-Reads roots nodes edges time = validated-Reads _ _

pub optional_gt-Reads : (o : Option GNodeSql) → Reads (optional_gt o)
unfolding optional_gt
optional_gt-Reads none = Reads-pure _
optional_gt-Reads (some row) = Reads-bind _ _ (to_gt-Reads row) λ gt. Reads-pure _

pub ruleset plain_reads = (
  reading_rules, to_gt-Reads, to_gts-Reads, edges_to_gts-Reads, new_forest-Reads, optional_gt-Reads,
)

pub get_forest-Reads : (w : World) (roots : List Text) → Reads (get_forest w roots)
unfolding get_forest
get_forest-Reads w roots = search plain_reads depth 7

pub check_proof-Reads :
    (w : World) (c : Config) (proof : Option Text) (error : Refusal → Error)
    → Reads (check_proof w c proof error)
unfolding check_proof
check_proof-Reads w c proof error = search reading_rules

pub row_to_gt-Reads : (o : Option GNodeSql) → Reads (row_to_gt o)
unfolding row_to_gt
row_to_gt-Reads none = Reads-raise _
row_to_gt-Reads (some row) = to_gt-Reads row

-- ---- the guards

check_claim-Reads : (node : GNodeGt) (o : Option AliasAssignmentSql) → Reads (check_claim node o)
unfolding check_claim
check_claim-Reads node none = search reading_rules
check_claim-Reads node (some c) = search reading_rules

check_parent_row-Reads : (node : GNodeGt) (o : Option GNodeSql) → Reads (check_parent_row node o)
unfolding check_parent_row
check_parent_row-Reads node none = search reading_rules
check_parent_row-Reads node (some p) = search reading_rules

check_parent-Reads : (node : GNodeGt) → Reads (check_parent node)
unfolding check_parent
check_parent-Reads node = search (reading_rules, Reads-of_if, check_parent_row-Reads)

require_parent-Reads : (n : GNodeGt) (o : Option GNodeSql) → Reads (require_parent n o)
unfolding require_parent
require_parent-Reads n none = search reading_rules
require_parent-Reads n (some p) = search reading_rules

pub require_child-Reads : (id : Text) (o : Option GNodeSql) → Reads (require_child id o)
unfolding require_child
require_child-Reads id none = search reading_rules
require_child-Reads id (some n) = search reading_rules

intend-Reads : (alias : Text) (ids : List Text) (d : Claims) → Reads (intend alias ids d)
unfolding intend
intend-Reads alias [] d = search reading_rules
intend-Reads alias (id ∷ ids) d =
    search (reading_rules, require_child-Reads, λ (e : Claims). intend-Reads alias ids e) depth 8

refuse_collisions-Reads : (xs : List (Text × Text)) → Reads (refuse_collisions xs)
unfolding refuse_collisions
refuse_collisions-Reads [] = search reading_rules
refuse_collisions-Reads (x ∷ xs) = search reading_rules

module _ (w : World) (c : Config) where
  pub create_guards-Reads : (node : GNodeGt) → Reads (create_guards w c node)
  unfolding create_guards
  create_guards-Reads node = search (reading_rules, check_claim-Reads, check_parent-Reads) depth 8

  pub reparent_guards-Reads : (cmd : GNodeReparentCmd) → Reads (reparent_guards w c cmd)
  unfolding reparent_guards
  reparent_guards-Reads cmd =
      search (reading_rules, require_parent-Reads, intend-Reads, refuse_collisions-Reads) depth 9
