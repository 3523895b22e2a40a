-- ===== src/Authority/Moves.antt =====
-- What a successful `apply_reparent` of src/gnr/db/authority.py has made of the nodes.
use grid_node_registry.Prelude.{
  ◌≡◌, refl, sym, ap, ◌∙◌, arith, Option, none, some, List, [], ◌∷◌, ◌++◌, map, Text, text_eq, ◌==◌,
  UniqueBy, UniqueBy-map, UniqueBy-append, not_any, find?, any,
}
use grid_node_registry.Alias.{moved_child_new_prefix}
use grid_node_registry.Sema.Messages.{GNodeForest, GNodeReparentCmd}
use grid_node_registry.Registry.Models.{Tables, GNodeSql, CommandLogSql, row_of_gt}
use grid_node_registry.Registry.Session.{
  ok, Session, pure, ◌>>=◌, get_node, get_command, add_node, add_command,
}
use grid_node_registry.Registry.Keeps.{
  Keeps, Keeps-pure, Keeps-raise, Keeps-gets, Keeps-bind, Keeps-modify, Keeps-After-gets,
  Keeps-after_guard, Keeps-weaken, Keeps-transaction,
}
use grid_node_registry.Registry.Reads.{Reads-Keeps}
use grid_node_registry.Authority.{World, Config}
use grid_node_registry.Authority.Reparent.{
  require_child, rewrite_prefix, move_children, reparent_writes, reparent_unless_logged,
  apply_reparent,
}
use grid_node_registry.Authority.Reads.{plain_reads, check_proof-Reads, reparent_guards-Reads}
use grid_node_registry.Authority.Rewriting.{NodesAre, moved, moves_subtree, claim_nodes}
use grid_node_registry.Authority.Effects.{refuse_violations-Reads, outcome}

-- The nodes after the moves: a child that is missing stops them.
abbrev pub moved_children : Text → List Text → List GNodeSql → List GNodeSql
moved_children n_alias [] g = g
moved_children n_alias (id ∷ ids) g = elim (find? (λ n. n.id == id) g) [
  | none ↦ g
  | some child ↦
      moved_children n_alias ids
        (map (moved child.alias (moved_child_new_prefix n_alias child.alias)) g)
]

abbrev pub HasUniqueIds : List GNodeSql → Type 0
HasUniqueIds = UniqueBy (λ (n : GNodeSql). n.id)

id-moved : (p q : Text) (n : GNodeSql) → (moved p q n).id ≡ n.id
unfolding moved
id-moved p q n = ground arith

moved-HasUniqueIds :
    (p q : Text) (g : List GNodeSql) → HasUniqueIds g → HasUniqueIds (map (moved p q) g)
moved-HasUniqueIds p q g u =
    UniqueBy-map (λ n. n.id) (λ n. n.id) (moved p q) g
      (λ x y i j e. sym (id-moved p q x) ∙ e ∙ id-moved p q y) u

Keeps-pure_bind :
    {A B : Type 0} {P Q : Tables → Type 0}
    → (a : A) (k : A → Session B) → Keeps P Q (k a)
    → Keeps P Q (pure a >>= k)
unfolding ◌>>=◌
Keeps-pure_bind a k h = record { at = h.at }

Keeps-raise_bind :
    {A B : Type 0} {P Q : Tables → Type 0}
    → (m : Session A) (k : A → Session B) → Keeps P (λ t. ⊥) m
    → Keeps P Q (m >>= k)
Keeps-raise_bind m k h = Keeps-bind m k h λ a. record { at = λ t no. absurd no }

module _ (n_alias : Text) where
  -- One child, given that the rest of them move as they should.
  moves_child :
      (id : Text) (ids updated : List Text) (g : List GNodeSql) (o : Option GNodeSql)
      → HasUniqueIds g
      → find? (λ n. n.id == id) g ≡ o
      → ((updated' : List Text) (h : List GNodeSql)
          → HasUniqueIds h
          → Keeps
              (NodesAre h)
              (NodesAre (moved_children n_alias ids h))
              (move_children n_alias ids updated'))
      → Keeps (NodesAre g) (NodesAre (moved_children n_alias (id ∷ ids) g)) (do
        child ← require_child id o
        updated' ← rewrite_prefix child.alias (moved_child_new_prefix n_alias child.alias) updated
        move_children n_alias ids updated')
  unfolding require_child
  moves_child id ids updated g none u e k = Keeps-raise_bind _ _ (Keeps-raise _)
  moves_child id ids updated g (some child) u e k =
      let q = moved_child_new_prefix n_alias child.alias in
      rw (e, moved_children)
        (Keeps-pure_bind child _ (
          Keeps-bind _ _ (moves_subtree child.alias q updated g u) λ updated'.
            k updated' (map (moved child.alias q) g) (moved-HasUniqueIds child.alias q g u)))

  moves_children :
      (ids updated : List Text) (g : List GNodeSql)
      → HasUniqueIds g
      → Keeps
          (NodesAre g)
          (NodesAre (moved_children n_alias ids g))
          (move_children n_alias ids updated)
  unfolding move_children get_node
  moves_children [] updated g u = Keeps-pure updated
  moves_children (id ∷ ids) updated g u = Keeps-After-gets _ _ λ t h.
      (moves_child id ids updated g _ u (ap (find? (λ n. n.id == id)) (sym h))
          (moves_children ids)).at
        t h

adds_unique :
    (g : List GNodeSql) (row : GNodeSql)
    → Keeps
        (λ t. NodesAre g t × HasUniqueIds g)
        (λ t. NodesAre (g ++ row ∷ []) t × HasUniqueIds (g ++ row ∷ []))
        (add_node row)
unfolding add_node
adds_unique g row = Keeps-after_guard _ _ _ (
    Keeps-after_guard _ _ _ (
      Keeps-after_guard _ _ _ (
        Keeps-modify _ λ t (((h, i), a), p). (
          ap (λ x. x ++ row ∷ []) h.0,
          UniqueBy-append (λ n. n.id) g row h.1
              (not_any (λ n. n.id) row.id g (ap (any (λ n. n.id == row.id)) (sym h.0) ∙ i)),
        ))))

-- The log takes an entry, and the nodes stay.
logs_nodes :
    (row : CommandLogSql) (g : List GNodeSql) → Keeps (NodesAre g) (NodesAre g) (add_command row)
unfolding add_command
logs_nodes row g = Keeps-after_guard _ _ _ (Keeps-modify _ λ t (h, f). h)

module _ (w : World) (c : Config) (cmd : GNodeReparentCmd) where
  abbrev pub inserted : List GNodeSql → List GNodeSql
  inserted g = g ++ row_of_gt cmd.new_node ∷ []

  abbrev pub reparented : List GNodeSql → List GNodeSql
  reparented g = moved_children cmd.new_node.alias cmd.moved_child_g_node_ids (inserted g)

  after_insertion :
      (g : List GNodeSql) (k : Session GNodeForest)
      → (HasUniqueIds (inserted g) → Keeps (NodesAre (inserted g)) (NodesAre (reparented g)) k)
      → Keeps (λ t. NodesAre (inserted g) t × HasUniqueIds (inserted g)) (NodesAre (reparented g)) k
  after_insertion g k h = record { at = λ t (e, u). (h u).at t e }

  writes_moves :
      (g : List GNodeSql)
      → HasUniqueIds g
      → Keeps (NodesAre g) (NodesAre (reparented g)) (reparent_writes w c cmd)
  unfolding reparent_writes row_of_gt
  writes_moves g u =
      Keeps-weaken _ (λ t h. (h, u))
        (Keeps-bind _ _ (adds_unique g _) λ _. after_insertion g _ λ v.
          Keeps-bind _ _ (claim_nodes _ _ _) λ _.
            Keeps-bind _ _ (moves_children _ _ _ _ v) λ updated. Keeps-bind _ _ (Keeps-gets _) λ vs.
              Keeps-bind _ _ (Reads-Keeps _ _ (refuse_violations-Reads _ vs)) λ _.
                Keeps-bind _ _ (Keeps-gets _) λ edges. Keeps-bind _ _ (Keeps-gets _) λ rows.
                  Keeps-bind _ _ (Reads-Keeps _ _ (search plain_reads)) λ nodes.
                    Keeps-bind _ _ (Reads-Keeps _ _ (search plain_reads)) λ edge_gts.
                      Keeps-bind _ _ (Reads-Keeps _ _ (search plain_reads))
                        λ broadcast. Keeps-bind _ _ (logs_nodes _ _) λ _. Keeps-pure _)

  unlogged_moves :
      (t : Tables) (o : Option CommandLogSql)
      → HasUniqueIds t.g_nodes
      → o ≡ none
      → Keeps
          (NodesAre t.g_nodes)
          (NodesAre (reparented t.g_nodes))
          (reparent_unless_logged w c cmd o)
  unfolding reparent_unless_logged
  unlogged_moves t none u e =
      Keeps-bind _ _ (Reads-Keeps _ _ (reparent_guards-Reads w c cmd)) λ _. writes_moves t.g_nodes u
  unlogged_moves t (some row) u e = ground arith

  reparents :
      (t : Tables)
      → HasUniqueIds t.g_nodes
      → get_command (w.sha256_hex (w.reparent_bytes cmd)) t ≡ none
      → Keeps (λ u. u ≡ t) (NodesAre (reparented t.g_nodes)) (apply_reparent w c cmd)
  unfolding apply_reparent
  reparents t unique fresh = Keeps-bind _ _ (Reads-Keeps _ _ (check_proof-Reads w c _ _)) λ _.
      Keeps-transaction _ (
        Keeps-After-gets _ (reparent_unless_logged w c cmd) λ u e.
          (unlogged_moves t _ unique
              (ap (get_command (w.sha256_hex (w.reparent_bytes cmd))) e ∙ fresh)).at
            u (ap (λ x. x.g_nodes) e))

  -- A re-parent command that succeeds and was not logged, on tables with unique ids, has appended the new
  -- node and then, for each moved child in order, renamed the whole subtree of the child onto its place
  -- under the new node, and no other node.
  pub apply_reparent-effect :
      (t : Tables) (f : GNodeForest)
      → HasUniqueIds t.g_nodes
      → get_command (w.sha256_hex (w.reparent_bytes cmd)) t ≡ none
      → (apply_reparent w c cmd t).0 ≡ ok f
      → (apply_reparent w c cmd t).1.g_nodes ≡ reparented t.g_nodes
  apply_reparent-effect t f unique fresh e =
      outcome (NodesAre (reparented t.g_nodes)) (apply_reparent w c cmd t) f
        ((reparents t unique fresh).at t refl) e
