-- ===== src/Authority/Forest.antt =====
-- `get_forest` of src/gnr/db/authority.py (lines 238-275): which rows the loop over the roots collects.
use grid_node_registry.Prelude.{
  ◌≡◌, ◌≢◌, ◌↔◌, ◌⊎◌, refl, sym, ap, subst, ◌∙◌, inl, inr, arith, true, false, Bool-cases, List, [],
  ◌∷◌, ◌++◌, Text, text_eq, ◌==◌, ==→≡, In, In-append, In-append_left, In-append_right, In-filter,
  In-filter_of, In-map_inv, In-map, All, All-of, any-false, any-In, contains, UniqueBy,
  UniqueBy-append, unique_of_key, sort, In-sort, if◌then◌else◌,
}
use grid_node_registry.Registry.Models.{Tables, GNodeSql}
use grid_node_registry.Authority.{
  World, subtree_rows, in_subtree_sql, add_unseen, forest_rows, ids_of,
}

Seen : List GNodeSql → GNodeSql → Type 0
Seen nodes row = (n : GNodeSql) × In n nodes × (n.id ≡ row.id)

not_seen :
    (nodes : List GNodeSql) (row : GNodeSql)
    → contains (ids_of nodes) row.id ≡ false
    → All (λ (n : GNodeSql). n.id ≢ row.id) nodes
not_seen nodes row h =
    All-of (λ (n : GNodeSql). n.id ≢ row.id) nodes
      λ n i e.
        clash _ _
          (any-false (λ x. row.id == x) n.id (ids_of nodes) h (In-map (λ n. n.id) n nodes i)) e
  where
    clash : (x y : Text) → (y == x) ≡ false → x ≡ y → ⊥
    clash x y f e = ground arith

Seen-of :
    (nodes : List GNodeSql) (row : GNodeSql)
    → contains (ids_of nodes) row.id ≡ true
    → Seen nodes row
unfolding Seen
Seen-of nodes row h =
    let (x, i, e) = any-In (λ x. row.id == x) (ids_of nodes) h in
    let (n, j, f) = In-map_inv (λ n. n.id) x nodes i in (n, j, sym f ∙ sym (==→≡ _ _ e))

-- ---- one root

add_unseen-UniqueBy :
    (nodes rows : List GNodeSql)
    → UniqueBy (λ (n : GNodeSql). n.id) nodes
    → UniqueBy (λ (n : GNodeSql). n.id) (add_unseen nodes rows)
unfolding add_unseen
add_unseen-UniqueBy nodes [] u = u
add_unseen-UniqueBy nodes (row ∷ rows) u = elim (Bool-cases (contains (ids_of nodes) row.id)) [
  | inl e ↦ rw e (add_unseen-UniqueBy nodes rows u)
  | inr e ↦ rw e (
      add_unseen-UniqueBy (nodes ++ row ∷ []) rows
        (UniqueBy-append (λ n. n.id) nodes row u (not_seen nodes row e)))
]

add_unseen_sound :
    (nodes rows : List GNodeSql) (n : GNodeSql)
    → In n (add_unseen nodes rows)
    → In n nodes ⊎ In n rows
unfolding add_unseen
add_unseen_sound nodes [] n i = inl i
add_unseen_sound nodes (row ∷ rows) n i = elim (Bool-cases (contains (ids_of nodes) row.id)) [
  | inl e ↦ elim (add_unseen_sound nodes rows n (rw e at i)) [ inl j ↦ inl j | inr j ↦ inr (inr j) ]
  | inr e ↦ elim (add_unseen_sound (nodes ++ row ∷ []) rows n (rw e at i)) [
    | inl j ↦ elim (In-append n nodes (row ∷ []) j) [
      | inl k ↦ inl k
      | inr k ↦ elim k [ inl p ↦ inr (inl p) | inr z ↦ absurd z ]
    ]
    | inr j ↦ inr (inr j)
  ]
]

add_unseen-keeps :
    (nodes rows : List GNodeSql) (n : GNodeSql) → In n nodes → In n (add_unseen nodes rows)
unfolding add_unseen
add_unseen-keeps nodes [] n i = i
add_unseen-keeps nodes (row ∷ rows) n i = elim (Bool-cases (contains (ids_of nodes) row.id)) [
  | inl e ↦ rw e (add_unseen-keeps nodes rows n i)
  | inr e ↦ rw e (add_unseen-keeps (nodes ++ row ∷ []) rows n (In-append_left n nodes (row ∷ []) i))
]

add_unseen-sees :
    (nodes rows : List GNodeSql) (n : GNodeSql) → In n rows → Seen (add_unseen nodes rows) n
unfolding add_unseen Seen
add_unseen-sees nodes [] n i = absurd i
add_unseen-sees nodes (row ∷ rows) n (inr i) =
    add_unseen-sees (if contains (ids_of nodes) row.id then nodes else nodes ++ row ∷ []) rows n i
add_unseen-sees nodes (row ∷ rows) n (inl p) = elim (Bool-cases (contains (ids_of nodes) row.id)) [
  | inl e ↦
      let (m, j, f) = Seen-of nodes row e in
      rw e (m, add_unseen-keeps nodes rows m j, f ∙ sym (ap (λ x. x.id) p))
  | inr e ↦ rw e (
    row,
    add_unseen-keeps (nodes ++ row ∷ []) rows row (In-append_right row nodes (row ∷ []) (inl refl)),
    sym (ap (λ x. x.id) p),
  )
]

-- ---- all roots

-- The node lies in the subtree of one of the roots.
abbrev pub Covered : Tables → List Text → GNodeSql → Type 0
Covered t roots n =
    In n t.g_nodes × ((root : Text) × In root roots × (in_subtree_sql root n.alias ≡ true))

module _ (w : World) (t : Tables) where
  abbrev sorted_rows : Text → List GNodeSql
  sorted_rows root = sort (λ a b. w.collate a.alias b.alias) (subtree_rows root t)

  forest_rows-UniqueBy :
      (nodes : List GNodeSql) (roots : List Text)
      → UniqueBy (λ (n : GNodeSql). n.id) nodes
      → UniqueBy (λ (n : GNodeSql). n.id) (forest_rows w nodes roots t)
  unfolding forest_rows
  forest_rows-UniqueBy nodes [] u = u
  forest_rows-UniqueBy nodes (root ∷ roots) u =
      forest_rows-UniqueBy (add_unseen nodes (sorted_rows root)) roots
        (add_unseen-UniqueBy nodes (sorted_rows root) u)

  rows_covered :
      (root : Text) (n : GNodeSql)
      → In n (sorted_rows root) ↔ (In n t.g_nodes × (in_subtree_sql root n.alias ≡ true))
  unfolding subtree_rows
  rows_covered root n = (
    λ i. In-filter (λ m. in_subtree_sql root m.alias) n t.g_nodes ((In-sort _ n _).0 i),
    λ (i, e). (In-sort _ n _).1 (In-filter_of (λ m. in_subtree_sql root m.alias) n t.g_nodes i e),
  )

  rows_sound :
      (nodes : List GNodeSql) (roots : List Text) (n : GNodeSql)
      → In n (forest_rows w nodes roots t)
      → In n nodes ⊎ Covered t roots n
  unfolding forest_rows
  rows_sound nodes [] n i = inl i
  rows_sound nodes (root ∷ roots) n i =
      elim (rows_sound (add_unseen nodes (sorted_rows root)) roots n i) [
        | inl j ↦ elim (add_unseen_sound nodes (sorted_rows root) n j) [
          | inl k ↦ inl k
          | inr k ↦ let (a, b) = (rows_covered root n).0 k in inr (a, (root, inl refl, b))
        ]
        | inr (a, (r, k, b)) ↦ inr (a, (r, inr k, b))
      ]

  rows_kept :
      (nodes : List GNodeSql) (roots : List Text) (n : GNodeSql)
      → In n nodes
      → In n (forest_rows w nodes roots t)
  unfolding forest_rows
  rows_kept nodes [] n i = i
  rows_kept nodes (root ∷ roots) n i =
      rows_kept (add_unseen nodes (sorted_rows root)) roots n
        (add_unseen-keeps nodes (sorted_rows root) n i)

  rows_complete :
      (nodes : List GNodeSql) (roots : List Text) (n : GNodeSql)
      → Covered t roots n
      → Seen (forest_rows w nodes roots t) n
  unfolding forest_rows Seen
  rows_complete nodes [] n (i, (r, k, b)) = absurd k
  rows_complete nodes (root ∷ roots) n (i, (r, inl e, b)) =
      let (m, j, f) =
        add_unseen-sees nodes (sorted_rows root) n
          ((rows_covered root n).1 (i, subst (λ x. in_subtree_sql x n.alias ≡ true) e b)) in
      (m, rows_kept (add_unseen nodes (sorted_rows root)) roots m j, f)
  rows_complete nodes (root ∷ roots) n (i, (r, inr k, b)) =
      rows_complete (add_unseen nodes (sorted_rows root)) roots n (i, (r, k, b))

  -- Where the ids of the nodes are unique, the rows that `get_forest` collects have unique ids, however
  -- the roots overlap, and are exactly the nodes in the subtree of one of the roots.
  pub forest_rows_iff :
      (roots : List Text)
      → UniqueBy (λ (n : GNodeSql). n.id) t.g_nodes
      → UniqueBy (λ (n : GNodeSql). n.id) (forest_rows w [] roots t)
        × ((n : GNodeSql) → In n (forest_rows w [] roots t) ↔ Covered t roots n)
  unfolding Seen
  forest_rows_iff roots u = (
    forest_rows-UniqueBy [] roots tt,
    λ n. (
      sound roots n,
      λ c.
          let (m, j, e) = rows_complete [] roots n c in
          subst (λ x. In x (forest_rows w [] roots t))
            (unique_of_key (λ x. x.id) t.g_nodes m n u (sound roots m j).0 c.0 e) j,
    ),
  )
    where
      sound :
          (roots : List Text) (n : GNodeSql) → In n (forest_rows w [] roots t) → Covered t roots n
      sound roots n i = elim (rows_sound [] roots n i) [ inl j ↦ absurd j | inr c ↦ c ]
