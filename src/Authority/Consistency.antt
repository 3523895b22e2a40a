-- ===== src/Authority/Consistency.antt =====
-- The mutations of src/gnr/db/authority.py, and the invariant of the registry between them.
use grid_node_registry.Prelude.{◌≡◌, refl, Option, none, some, List, [], ◌∷◌, Text, text_eq}
use grid_node_registry.Sema.Messages.{GNodeCreateCmd, GNodeReparentCmd}
use grid_node_registry.Registry.Models.{Tables, GNodeSql, CommandLogSql, row_of_gt}
use grid_node_registry.Registry.Violations.{Violation}
use grid_node_registry.Registry.Validate.{validate_registry}
use grid_node_registry.Registry.Session.{Session, Refusal, Error, gets, ◌>>=◌, add_command}
use grid_node_registry.Registry.Keeps.{
  After, Keeps, Keeps-pure, Keeps-bind, Keeps-After-gets, Keeps-after_guard, Keeps-modify,
  Keeps-weaken, Keeps-transaction,
}
use grid_node_registry.Registry.Reads.{Reads-Keeps, Reads-gets}
use grid_node_registry.Registry.Consistency.{
  IsConsistent, Keeps-add_node, Keeps-claim_alias, add_log,
}
use grid_node_registry.Authority.{World, Config}
use grid_node_registry.Authority.Create.{
  refuse_violations, create_writes, create_unless_logged, apply_create,
}
use grid_node_registry.Authority.Reparent.{
  rewrite_rows, rewrite_prefix, move_children, reparent_writes, reparent_unless_logged,
  apply_reparent,
}
use grid_node_registry.Authority.Rename.{Keeps-rename}
use grid_node_registry.Authority.Reads.{
  plain_reads, check_proof-Reads, row_to_gt-Reads, require_child-Reads, create_guards-Reads,
  reparent_guards-Reads, get_forest-Reads,
}

-- What holds between transactions, for the instance that serves `universe`.
pub record IsRegistry (universe : Text) (t : Tables) : Type 0 where
  pub consistent : IsConsistent t
  pub clean : validate_registry t universe ≡ []

module _ {B : Type 0} {Q : Tables → Type 0} (universe : Text) (error : Refusal → Error)
    (k : Session B) where
  audited :
      (t : Tables) (vs : List Violation)
      → IsConsistent t
      → validate_registry t universe ≡ vs
      → Keeps (IsRegistry universe) Q k
      → After Q ((refuse_violations error vs >>= λ _. k) t)
  unfolding refuse_violations ◌>>=◌
  audited t [] h e g = g.at t (record { consistent = h; clean = e })
  audited t (v ∷ vs) h e g = tt

  -- What comes after the audit runs on a registry without violations.
  Keeps-after_audit :
      Keeps (IsRegistry universe) Q k
      → Keeps IsConsistent Q
          (gets (λ t. validate_registry t universe) >>= λ vs. refuse_violations error vs >>= λ _. k)
  Keeps-after_audit g =
      Keeps-After-gets (λ t. validate_registry t universe)
        (λ vs. refuse_violations error vs >>= λ _. k)
        λ t h. audited t (validate_registry t universe) h refl g

Keeps-log :
    (universe : Text) (row : CommandLogSql)
    → Keeps (IsRegistry universe) (IsRegistry universe) (add_command row)
unfolding add_command validate_registry
Keeps-log universe row = Keeps-after_guard _ _ _ (
    Keeps-modify _
      λ t (h, f). record { consistent = add_log row t h.consistent f; clean = h.clean })

-- ---- the rewrite

Keeps-rewrite_rows :
    (p q : Text) (rows : List GNodeSql) (updated : List Text)
    → Keeps IsConsistent IsConsistent (rewrite_rows p q rows updated)
unfolding rewrite_rows
Keeps-rewrite_rows p q [] updated = Keeps-pure _
Keeps-rewrite_rows p q (row ∷ rows) updated =
    Keeps-bind _ _ (Keeps-rename row.id _)
      λ _. Keeps-bind _ _ (Keeps-claim_alias _ row.id) λ _. Keeps-rewrite_rows p q rows _

Keeps-rewrite_prefix :
    (p q : Text) (updated : List Text)
    → Keeps IsConsistent IsConsistent (rewrite_prefix p q updated)
unfolding rewrite_prefix
Keeps-rewrite_prefix p q updated =
    Keeps-bind _ _ (Reads-Keeps _ _ (Reads-gets _)) λ rows. Keeps-rewrite_rows p q rows updated

Keeps-move_children :
    (alias : Text) (ids updated : List Text)
    → Keeps IsConsistent IsConsistent (move_children alias ids updated)
unfolding move_children
Keeps-move_children alias [] updated = Keeps-pure _
Keeps-move_children alias (id ∷ ids) updated = Keeps-bind _ _ (Reads-Keeps _ _ (Reads-gets _)) λ o.
    Keeps-bind _ _ (Reads-Keeps _ _ (require_child-Reads id o)) λ child.
      Keeps-bind _ _ (Keeps-rewrite_prefix _ _ updated) λ u. Keeps-move_children alias ids u

-- ---- the commands

module _ (w : World) (c : Config) where
  Keeps-create_writes :
      (cmd : GNodeCreateCmd) → Keeps IsConsistent (IsRegistry c.universe) (create_writes w c cmd)
  unfolding create_writes row_of_gt
  Keeps-create_writes cmd = Keeps-bind _ _ (Keeps-add_node _) λ _.
      Keeps-bind _ _ (Keeps-claim_alias _ _) λ _. Keeps-after_audit c.universe _ _ (
        Keeps-bind _ _ (Keeps-log c.universe _)
          λ _. Reads-Keeps _ _ (search (plain_reads, row_to_gt-Reads)))

  Keeps-create_unless_logged :
      (cmd : GNodeCreateCmd) (o : Option CommandLogSql)
      → Keeps (IsRegistry c.universe) (IsRegistry c.universe) (create_unless_logged w c cmd o)
  unfolding create_unless_logged
  Keeps-create_unless_logged cmd none =
      Keeps-bind _ _ (Reads-Keeps _ _ (create_guards-Reads w c cmd.new_node))
        λ _. Keeps-weaken _ (λ t h. h.consistent) (Keeps-create_writes cmd)
  Keeps-create_unless_logged cmd (some l) = Reads-Keeps _ _ (get_forest-Reads w _)

  pub Keeps-apply_create :
      (cmd : GNodeCreateCmd)
      → Keeps (IsRegistry c.universe) (IsRegistry c.universe) (apply_create w c cmd)
  unfolding apply_create
  Keeps-apply_create cmd = Keeps-bind _ _ (Reads-Keeps _ _ (check_proof-Reads w c _ _)) λ _.
      Keeps-transaction _
        (Keeps-bind _ _ (Reads-Keeps _ _ (Reads-gets _)) (Keeps-create_unless_logged cmd))

  Keeps-reparent_writes :
      (cmd : GNodeReparentCmd)
      → Keeps IsConsistent (IsRegistry c.universe) (reparent_writes w c cmd)
  unfolding reparent_writes row_of_gt
  Keeps-reparent_writes cmd = Keeps-bind _ _ (Keeps-add_node _) λ _.
      Keeps-bind _ _ (Keeps-claim_alias _ _) λ _.
        Keeps-bind _ _ (Keeps-move_children _ _ _) λ updated. Keeps-after_audit c.universe _ _ (
          Keeps-bind _ _ (Reads-Keeps _ _ (Reads-gets _)) λ edges.
            Keeps-bind _ _ (Reads-Keeps _ _ (Reads-gets _)) λ rows.
              Keeps-bind _ _ (Reads-Keeps _ _ (search plain_reads)) λ nodes.
                Keeps-bind _ _ (Reads-Keeps _ _ (search plain_reads)) λ edge_gts.
                  Keeps-bind _ _ (Reads-Keeps _ _ (search plain_reads))
                    λ broadcast. Keeps-bind _ _ (Keeps-log c.universe _) λ _. Keeps-pure _)

  Keeps-reparent_unless_logged :
      (cmd : GNodeReparentCmd) (o : Option CommandLogSql)
      → Keeps (IsRegistry c.universe) (IsRegistry c.universe) (reparent_unless_logged w c cmd o)
  unfolding reparent_unless_logged
  Keeps-reparent_unless_logged cmd none =
      Keeps-bind _ _ (Reads-Keeps _ _ (reparent_guards-Reads w c cmd))
        λ _. Keeps-weaken _ (λ t h. h.consistent) (Keeps-reparent_writes cmd)
  Keeps-reparent_unless_logged cmd (some l) = Reads-Keeps _ _ (get_forest-Reads w _)

  pub Keeps-apply_reparent :
      (cmd : GNodeReparentCmd)
      → Keeps (IsRegistry c.universe) (IsRegistry c.universe) (apply_reparent w c cmd)
  unfolding apply_reparent
  Keeps-apply_reparent cmd = Keeps-bind _ _ (Reads-Keeps _ _ (check_proof-Reads w c _ _)) λ _.
      Keeps-transaction _
        (Keeps-bind _ _ (Reads-Keeps _ _ (Reads-gets _)) (Keeps-reparent_unless_logged cmd))
