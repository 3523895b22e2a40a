-- ===== src/Authority/Success.antt =====
-- When `apply_create` of src/gnr/db/authority.py succeeds, and with what.
use grid_node_registry.Prelude.{
  ◌≡◌, ◌≢◌, refl, sym, ap, ◌∙◌, subst, arith, inl, inr, true, false, none, some, List, [], ◌∷◌,
  ◌++◌, Text, text_eq, ◌==◌, ==_refl, any, In, In-append_right, All, All-of, UniqueBy-append,
  find?_unique, find?-some, find?-none-All, All-In, Option-cases,
}
use grid_node_registry.Sema.Format.{is_left_right_dot, is_utc_milliseconds}
use grid_node_registry.Sema.GNode.{GNodeGt, validate}
use grid_node_registry.Sema.GNode.Axioms.{validate-IsValid}
use grid_node_registry.Sema.Messages.{GNodeForest, GNodeCreateCmd, validate_forest}
use grid_node_registry.Registry.Models.{Tables, GNodeSql, row_of_gt, gt_of_row}
use grid_node_registry.Registry.Validate.{validate_registry}
use grid_node_registry.Registry.Session.{
  ok, pure, ◌>>=◌, transaction, get_node, get_claim, get_command, add_node, add_command, has_point,
}
use grid_node_registry.Registry.Ledger.{claim_alias}
use grid_node_registry.Registry.Consistency.{IsConsistent, claim_of}
use grid_node_registry.Registry.Inserts.{
  no_row, with_nodes, add_node-runs, claim_alias-runs, claimed,
}
use grid_node_registry.Authority.{
  World, Config, check_proof, proof_fails, to_gt, validated, new_forest,
}
use grid_node_registry.Authority.Create.{
  apply_create, create_unless_logged, create_writes, refuse_violations, row_to_gt,
}
use grid_node_registry.Authority.Guards.{MayCreate, FreeFor, create_guards_iff}
use grid_node_registry.Authority.Effects.{created_entry}

module _ (node : GNodeGt) (t : Tables) (h : IsConsistent t)
    (fresh : get_node node.g_node_id t ≡ none) where
  ids_fresh : All (λ (n : GNodeSql). n.id ≢ node.g_node_id) t.g_nodes
  unfolding get_node
  ids_fresh = find?-none-All (λ n. n.id) node.g_node_id t.g_nodes fresh

  -- A claim by the id would have a node.
  alias_free : FreeFor node.g_node_id (get_claim node.alias t) → get_claim node.alias t ≡ none
  unfolding get_claim
  alias_free f = elim (Option-cases (get_claim node.alias t)) [
    | inl e ↦ e
    | inr (c, e) ↦
        let (i, p) = find?-some (λ c. c.alias == node.alias) c t.alias_assignment e in
        let (n, j, same) = h.keyed.owners c i in
        let mine : c.g_node_id ≡ node.g_node_id = subst (FreeFor node.g_node_id) e f in
        absurd (All-In _ n t.g_nodes ids_fresh j (same ∙ mine))
  ]

  aliases_fresh :
      get_claim node.alias t ≡ none → All (λ (n : GNodeSql). n.alias ≢ node.alias) t.g_nodes
  unfolding get_claim
  aliases_fresh e = All-of _ t.g_nodes λ n i same.
      All-In _ (claim_of n.alias n.id) t.alias_assignment
        (find?-none-All (λ c. c.alias) node.alias t.alias_assignment e) (h.owned n i) same

module _ (w : World) (c : Config) (cmd : GNodeCreateCmd) (t : Tables) where
  -- The tables with the node, its claim, and the entry of the command.
  abbrev pub with_node_and_claim : Tables
  with_node_and_claim = record t {
    g_nodes = t.g_nodes ++ row_of_gt cmd.new_node ∷ [];
    alias_assignment =
        t.alias_assignment ++ claim_of cmd.new_node.alias cmd.new_node.g_node_id ∷ [];
  }

  abbrev pub with_entry : Tables
  with_entry = record with_node_and_claim {
    command_log = t.command_log ++ created_entry w c cmd ∷ [];
  }

  abbrev pub created_forest : GNodeForest
  created_forest = record {
    roots = cmd.new_node.alias ∷ [];
    nodes = cmd.new_node ∷ [];
    edges = [];
    send_time_ms = w.send_time_ms;
    proof = none;
  }

  module _ (h : IsConsistent t) (may : MayCreate c.universe cmd.new_node t) where
    node_in :
        has_point t cmd.new_node.position_point_id ≡ true
        → add_node (row_of_gt cmd.new_node) t
          ≡ (ok tt, with_nodes t (t.g_nodes ++ row_of_gt cmd.new_node ∷ []))
    unfolding row_of_gt
    node_in p =
        let e = alias_free cmd.new_node t h may.fresh may.free in
        add_node-runs (row_of_gt cmd.new_node) t
          (no_row (λ n. n.id) cmd.new_node.g_node_id t.g_nodes
            (ids_fresh cmd.new_node t h may.fresh))
          (no_row (λ n. n.alias) cmd.new_node.alias t.g_nodes
            (aliases_fresh cmd.new_node t h may.fresh e))
          p

    claim_in :
        claim_alias cmd.new_node.alias cmd.new_node.g_node_id
          (with_nodes t (t.g_nodes ++ row_of_gt cmd.new_node ∷ []))
        ≡ (ok tt, with_node_and_claim)
    unfolding claimed row_of_gt get_claim
    claim_in =
        let e = alias_free cmd.new_node t h may.fresh may.free in
        claim_alias-runs cmd.new_node.alias cmd.new_node.g_node_id
          (with_nodes t (t.g_nodes ++ row_of_gt cmd.new_node ∷ []))
          (UniqueBy-append (λ c. c.alias) t.alias_assignment
            (claim_of cmd.new_node.alias cmd.new_node.g_node_id) h.keyed.claims
            (find?-none-All (λ c. c.alias) cmd.new_node.alias t.alias_assignment e))
          (found_any cmd.new_node.g_node_id (t.g_nodes ++ row_of_gt cmd.new_node ∷ [])
            (row_of_gt cmd.new_node) (In-append_right _ t.g_nodes _ (inl refl)) refl)
      where
        found_any :
            (id : Text) (rows : List GNodeSql) (row : GNodeSql)
            → In row rows
            → row.id ≡ id
            → any (λ (n : GNodeSql). n.id == id) rows ≡ true
        found_any id [] row i e = absurd i
        found_any id (r ∷ rows) row (inl s) e =
            let q : r.id ≡ id = ap (λ n. n.id) (sym s) ∙ e in rw (q, ==_refl id) refl
        found_any id (r ∷ rows) row (inr i) e = ground (arith, found_any id rows row i e)

    entry_in :
        get_command (w.sha256_hex (w.create_bytes cmd)) t ≡ none
        → add_command (created_entry w c cmd) with_node_and_claim ≡ (ok tt, with_entry)
    unfolding add_command get_command ◌>>=◌
    entry_in e =
        rw
          (no_row (λ c. c.command_hash) (w.sha256_hex (w.create_bytes cmd)) t.command_log
            (find?-none-All (λ c. c.command_hash) (w.sha256_hex (w.create_bytes cmd)) t.command_log
              e))
          refl

    row_found : get_node cmd.new_node.g_node_id with_entry ≡ some (row_of_gt cmd.new_node)
    unfolding get_node row_of_gt
    row_found =
        find?_unique (λ n. n.id) (t.g_nodes ++ row_of_gt cmd.new_node ∷ []) (row_of_gt cmd.new_node)
          (UniqueBy-append (λ n. n.id) t.g_nodes (row_of_gt cmd.new_node) h.keyed.ids
            (ids_fresh cmd.new_node t h may.fresh))
          (In-append_right _ t.g_nodes _ (inl refl))

  answer_given :
      (u : Tables)
      → validate cmd.new_node ≡ none
      → row_to_gt (some (row_of_gt cmd.new_node)) u ≡ (ok cmd.new_node, u)
  unfolding row_to_gt to_gt validated gt_of_row row_of_gt pure
  answer_given u v = rw v refl

  broadcast_given :
      (u : Tables)
      → is_left_right_dot cmd.new_node.alias ≡ true
      → is_utc_milliseconds w.send_time_ms ≡ true
      → new_forest (cmd.new_node.alias ∷ []) (cmd.new_node ∷ []) [] w.send_time_ms u
        ≡ (ok created_forest, u)
  unfolding new_forest validated validate_forest pure
  broadcast_given u a b = rw (a, b) refl

  -- What a create command asks for, besides its guards.
  pub record IsCreatable : Type 0 where
    pub proven : proof_fails w c c.write_proof_sha256 cmd.proof ≡ false
    pub unlogged : get_command (w.sha256_hex (w.create_bytes cmd)) t ≡ none
    pub may : MayCreate c.universe cmd.new_node t
    pub valid : validate cmd.new_node ≡ none
    pub placed : has_point t cmd.new_node.position_point_id ≡ true
    pub audited : validate_registry with_node_and_claim c.universe ≡ []
    pub timed : is_utc_milliseconds w.send_time_ms ≡ true

  writes_run :
      IsConsistent t → IsCreatable → create_writes w c cmd t ≡ (ok created_forest, with_entry)
  unfolding create_writes ◌>>=◌ refuse_violations
  writes_run h k =
      rw
        (
          node_in h k.may k.placed,
          claim_in h k.may,
          k.audited,
          entry_in h k.may k.unlogged,
          row_found h k.may,
          answer_given with_entry k.valid,
          broadcast_given with_entry (validate-IsValid cmd.new_node k.valid).alias_format k.timed,
        )
        refl

  -- On consistent tables a create command is applied, and broadcasts its node alone, where its proof is
  -- accepted, it is not logged, its guards pass, its node is valid and its position has a row, the
  -- audit finds nothing in the tables with the node and its claim, and the clock is in range.
  pub apply_create-succeeds :
      IsConsistent t → IsCreatable → apply_create w c cmd t ≡ (ok created_forest, with_entry)
  unfolding apply_create create_unless_logged check_proof transaction ◌>>=◌
  apply_create-succeeds h k =
      rw (k.proven, k.unlogged, (create_guards_iff w c cmd.new_node t).1 k.may, writes_run h k) refl
