-- ===== src/Authority/Rewriting.antt =====
-- `_rewrite_prefix` of src/gnr/db/authority.py (lines 469-494): what the loop over the rows of a
-- subtree leaves in `g_nodes`, against one pass over all nodes.
use grid_node_registry.Prelude.{
  ◌≡◌, ◌≢◌, refl, sym, ap, subst, ◌∙◌, inl, inr, arith, Bool, true, false, Bool-cases, Option, none,
  some, List, [], ◌∷◌, map, Text, text_eq, ◌==◌, In, In-filter, In-filter_of, All, All-In, All-of,
  UniqueBy, UniqueBy-filter, unique_of_key, map_congruent, map_fused, map_same, ==_refl, filter,
  if◌then◌else◌,
}
use grid_node_registry.Alias.{rewrite_alias}
use grid_node_registry.Registry.Models.{Tables, GNodeSql, AliasAssignmentSql}
use grid_node_registry.Registry.Session.{Result, ok, err}
use grid_node_registry.Registry.Ledger.{claim_alias, insert_claim, check_owner}
use grid_node_registry.Registry.Keeps.{
  After, Keeps, Keeps-pure, Keeps-raise, Keeps-raise_if, Keeps-gets, Keeps-bind, Keeps-modify,
  Keeps-After-gets, Keeps-after_guard,
}
use grid_node_registry.Authority.{subtree_rows, in_subtree_sql}
use grid_node_registry.Authority.Reparent.{
  rename, rename_row, renamed, rewrite_rows, rewrite_prefix,
}
use grid_node_registry.Authority.Rename.{rename_row_other, rename_row_self}

abbrev pub NodesAre : List GNodeSql → Tables → Type 0
NodesAre g t = t.g_nodes ≡ g

rename_nodes :
    (id alias : Text) (g : List GNodeSql)
    → Keeps (NodesAre g) (NodesAre (map (rename_row id alias) g)) (rename id alias)
unfolding rename
rename_nodes id alias g =
    Keeps-after_guard _ _ _ (Keeps-modify _ λ t (h, free). ap (map (rename_row id alias)) h)

insert_nodes :
    (alias id : Text) (o : Option AliasAssignmentSql) (g : List GNodeSql)
    → Keeps (NodesAre g) (NodesAre g) (insert_claim alias id o)
unfolding insert_claim
insert_nodes alias id none g = Keeps-after_guard _ _ _ (Keeps-modify _ λ t (h, known). h)
insert_nodes alias id (some c) g = Keeps-pure tt

check_nodes :
    (alias id : Text) (o : Option AliasAssignmentSql) (g : List GNodeSql)
    → Keeps (NodesAre g) (NodesAre g) (check_owner alias id o)
unfolding check_owner
check_nodes alias id none g = Keeps-raise _
check_nodes alias id (some c) g = Keeps-raise_if _ _

pub claim_nodes :
    (alias id : Text) (g : List GNodeSql) → Keeps (NodesAre g) (NodesAre g) (claim_alias alias id)
unfolding claim_alias
claim_nodes alias id g = Keeps-bind _ _ (Keeps-gets _) λ o.
    Keeps-bind _ _ (insert_nodes alias id o g)
      λ _. Keeps-bind _ _ (Keeps-gets _) λ o'. check_nodes alias id o' g

different : (x y : Text) → x ≢ y → (y == x) ≡ false
different x y h = ground arith

clash : (a b : Bool) → a ≡ b → a ≡ true → b ≡ false → ⊥
clash a b e f g = ground arith

module _ (p q : Text) where
  -- What the loop does to one node.
  abbrev rename_all : List GNodeSql → GNodeSql → GNodeSql
  rename_all [] n = n
  rename_all (row ∷ rows) n = rename_all rows (rename_row row.id (rewrite_alias row.alias p q) n)

  -- A node is renamed once, by its own row, or not at all.
  unfoldable pub moved : GNodeSql → GNodeSql
  moved n = if in_subtree_sql p n.alias then renamed (rewrite_alias n.alias p q) n else n

  rewrite_rows_nodes :
      (rows : List GNodeSql) (updated : List Text) (g : List GNodeSql)
      → Keeps (NodesAre g) (NodesAre (map (rename_all rows) g)) (rewrite_rows p q rows updated)
  unfolding rewrite_rows
  rewrite_rows_nodes [] updated g =
      subst (λ x. Keeps (NodesAre g) (NodesAre x) (rewrite_rows p q [] updated)) (sym (map_same g))
        (Keeps-pure updated)
  rewrite_rows_nodes (row ∷ rows) updated g =
      subst (λ x. Keeps (NodesAre g) (NodesAre x) (rewrite_rows p q (row ∷ rows) updated))
        (map_fused (rename_row row.id (rewrite_alias row.alias p q)) (rename_all rows) g)
        (Keeps-bind _ _ (rename_nodes row.id _ g)
          λ _. Keeps-bind _ _ (claim_nodes _ row.id _) λ _. rewrite_rows_nodes rows _ _)

  rename_all_others :
      (rows : List GNodeSql) (n : GNodeSql)
      → All (λ row. row.id ≢ n.id) rows
      → rename_all rows n ≡ n
  rename_all_others [] n h = refl
  rename_all_others (row ∷ rows) n h =
      rw (rename_row_other row.id (rewrite_alias row.alias p q) n (different _ _ h.0))
        (rename_all_others rows n h.1)

  rename_all_own :
      (rows : List GNodeSql) (n : GNodeSql)
      → UniqueBy (λ (m : GNodeSql). m.id) rows
      → In n rows
      → rename_all rows n ≡ renamed (rewrite_alias n.alias p q) n
  rename_all_own [] n u i = absurd i
  rename_all_own (row ∷ rows) n u (inl e) =
      subst
        (λ m.
          rename_all rows (rename_row row.id (rewrite_alias row.alias p q) m)
          ≡ renamed (rewrite_alias m.alias p q) m)
        (sym e)
        (rw (rename_row_self row.id (rewrite_alias row.alias p q) row (==_refl row.id))
          (rename_all_others rows (renamed (rewrite_alias row.alias p q) row) u.0))
  rename_all_own (row ∷ rows) n u (inr i) =
      rw
        (rename_row_other row.id (rewrite_alias row.alias p q) n
          (different _ _ λ f. All-In (λ y. y.id ≢ row.id) n rows u.0 i (sym f)))
        (rename_all_own rows n u.1 i)

  rename_all-moved :
      (g : List GNodeSql) (n : GNodeSql)
      → UniqueBy (λ (m : GNodeSql). m.id) g
      → In n g
      → rename_all (filter (λ m. in_subtree_sql p m.alias) g) n ≡ moved n
  unfolding moved
  rename_all-moved g n u i = elim (Bool-cases (in_subtree_sql p n.alias)) [
    | inl e ↦ rw e (
        rename_all_own _ n (UniqueBy-filter (λ m. m.id) _ g u)
          (In-filter_of (λ m. in_subtree_sql p m.alias) n g i e))
    | inr e ↦ rw e (
        rename_all_others _ n
          (All-of (λ row. row.id ≢ n.id) (filter (λ m. in_subtree_sql p m.alias) g) (outside e)))
  ]
    where
      outside :
          in_subtree_sql p n.alias ≡ false
          → (row : GNodeSql) → In row (filter (λ m. in_subtree_sql p m.alias) g)
          → row.id ≢ n.id
      outside e row j f =
          let (k, s) = In-filter (λ m. in_subtree_sql p m.alias) row g j in
          clash _ _ (ap (λ m. in_subtree_sql p m.alias) (unique_of_key (λ m. m.id) g row n u k i f))
            s e

  pub moves_subtree :
      (updated : List Text) (g : List GNodeSql)
      → UniqueBy (λ (m : GNodeSql). m.id) g
      → Keeps (NodesAre g) (NodesAre (map moved g)) (rewrite_prefix p q updated)
  unfolding rewrite_prefix subtree_rows
  moves_subtree updated g u = Keeps-After-gets _ _ λ t h.
      subst (λ x. After (NodesAre x) (rewrite_rows p q (subtree_rows p t) updated t))
        (map_congruent _ _ g λ n i.
          ap (λ x. rename_all (filter (λ m. in_subtree_sql p m.alias) x) n) h
          ∙ rename_all-moved g n u i)
        ((rewrite_rows_nodes (subtree_rows p t) updated g).at t h)

  -- On tables with unique ids, a `_rewrite_prefix` that returns has renamed every node at or under the
  -- old prefix once, onto the new prefix, with its old alias as its previous alias, and no other node.
  pub rewrite_prefix-moved :
      (updated ids : List Text) (t : Tables)
      → UniqueBy (λ (m : GNodeSql). m.id) t.g_nodes
      → (rewrite_prefix p q updated t).0 ≡ ok ids
      → (rewrite_prefix p q updated t).1.g_nodes ≡ map moved t.g_nodes
  rewrite_prefix-moved updated ids t u e =
      returned (rewrite_prefix p q updated t) e ((moves_subtree updated t.g_nodes u).at t refl)
    where
      returned :
          (r : Result (List Text) × Tables)
          → r.0 ≡ ok ids
          → After (NodesAre (map moved t.g_nodes)) r
          → r.1.g_nodes ≡ map moved t.g_nodes
      returned (ok a, v) e h = h
      returned (err x, v) e h = ground arith
