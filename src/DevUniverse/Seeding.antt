-- ===== src/DevUniverse/Seeding.antt =====
-- The inserts of `seed_dev_universe` (src/gnr/dev_universe.py): rows with keys of their own go in.
use grid_node_registry.Prelude.{
  ◌≡◌, sym, ap, ◌∙◌, subst, true, List, [], ◌∷◌, ◌++◌, append-nil, append_assoc, map, text_eq, ◌==◌,
  any, All, UniqueBy,
}
use grid_node_registry.Sema.GNode.{GNodeGt}
use grid_node_registry.Registry.Models.{Tables, GNodeSql, AliasAssignmentSql, row_of_gt}
use grid_node_registry.Registry.Session.{ok, pure, ◌>>=◌, has_point}
use grid_node_registry.Registry.Consistency.{claim_of}
use grid_node_registry.Registry.Inserts.{
  UniqueBy-middle, UniqueBy-front, no_row, with_nodes, with_claims, add_node-runs, claim_alias-runs,
  claimed,
}
use grid_node_registry.DevUniverse.{add_nodes, claim_aliases}

pub add_nodes-runs :
    (gs : List GNodeGt) (t : Tables)
    → UniqueBy (λ (n : GNodeSql). n.id) (t.g_nodes ++ map row_of_gt gs)
    → UniqueBy (λ (n : GNodeSql). n.alias) (t.g_nodes ++ map row_of_gt gs)
    → All (λ (g : GNodeGt). has_point t g.position_point_id ≡ true) gs
    → add_nodes gs t ≡ (ok tt, with_nodes t (t.g_nodes ++ map row_of_gt gs))
unfolding add_nodes ◌>>=◌ row_of_gt pure
add_nodes-runs [] t i a p = ap (λ rows. (ok tt, with_nodes t rows)) (sym (append-nil t.g_nodes))
add_nodes-runs (g ∷ gs) t i a (p, ps) =
    rw
      (add_node-runs (row_of_gt g) t
        (no_row (λ n. n.id) g.g_node_id t.g_nodes
          (UniqueBy-middle (λ n. n.id) t.g_nodes (row_of_gt g) (map row_of_gt gs) i))
        (no_row (λ n. n.alias) g.alias t.g_nodes
          (UniqueBy-middle (λ n. n.alias) t.g_nodes (row_of_gt g) (map row_of_gt gs) a))
        p)
      (add_nodes-runs gs (with_nodes t (t.g_nodes ++ row_of_gt g ∷ []))
          (subst (UniqueBy (λ n. n.id)) (sym joined) i)
          (subst (UniqueBy (λ n. n.alias)) (sym joined) a) ps
        ∙ ap (λ rows. (ok tt, with_nodes t rows)) joined)
  where
    joined :
        (t.g_nodes ++ row_of_gt g ∷ []) ++ map row_of_gt gs
        ≡ t.g_nodes ++ row_of_gt g ∷ map row_of_gt gs
    joined = append_assoc t.g_nodes (row_of_gt g ∷ []) (map row_of_gt gs)

abbrev pub claim_row : GNodeGt → AliasAssignmentSql
claim_row g = claim_of g.alias g.g_node_id

pub claim_aliases-runs :
    (gs : List GNodeGt) (t : Tables)
    → UniqueBy (λ (c : AliasAssignmentSql). c.alias) (t.alias_assignment ++ map claim_row gs)
    → All (λ (g : GNodeGt). any (λ (n : GNodeSql). n.id == g.g_node_id) t.g_nodes ≡ true) gs
    → claim_aliases gs t ≡ (ok tt, with_claims t (t.alias_assignment ++ map claim_row gs))
unfolding claim_aliases ◌>>=◌ pure claimed
claim_aliases-runs [] t u k =
    ap (λ claims. (ok tt, with_claims t claims)) (sym (append-nil t.alias_assignment))
claim_aliases-runs (g ∷ gs) t u (k, ks) =
    rw
      (claim_alias-runs g.alias g.g_node_id t
        (UniqueBy-front (λ c. c.alias) _ (map claim_row gs)
          (subst (UniqueBy (λ c. c.alias)) (sym joined) u))
        k)
      (claim_aliases-runs gs (with_claims t (t.alias_assignment ++ claim_row g ∷ []))
          (subst (UniqueBy (λ c. c.alias)) (sym joined) u) ks
        ∙ ap (λ claims. (ok tt, with_claims t claims)) joined)
  where
    joined :
        (t.alias_assignment ++ claim_row g ∷ []) ++ map claim_row gs
        ≡ t.alias_assignment ++ claim_row g ∷ map claim_row gs
    joined = append_assoc t.alias_assignment (claim_row g ∷ []) (map claim_row gs)
