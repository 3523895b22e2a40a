-- ===== src/DevUniverse/Points.antt =====
-- The positions that `seed_dev_universe` (src/gnr/dev_universe.py) inserts: no two have one id, so they
-- go in.
use grid_node_registry.Prelude.{
  not_contained, ◌≡◌, ◌≢◌, refl, sym, ap, ◌∙◌, subst, inl, inr, false, Bool-cases, Option-cases,
  List, [], ◌∷◌, ◌++◌, append-nil, append_assoc, map, Text, text_eq, ◌==◌, any, contains, All,
  All-of, All-In, UniqueBy, UniqueBy-append, UniqueBy-map, sort, insert_sorted, In-sort,
  In-insert_sorted, text_leb,
}
use grid_node_registry.Sema.GNode.{GNodeGt}
use grid_node_registry.Registry.Models.{Tables, PositionPointSql}
use grid_node_registry.Registry.Session.{ok, pure, ◌>>=◌}
use grid_node_registry.Registry.Inserts.{UniqueBy-middle, no_row}
use grid_node_registry.DevUniverse.{add_point, add_points, point_row, add_positions}

abbrev pub with_points : Tables → List PositionPointSql → Tables
with_points t rows = record t { position_points = rows }

add_point-runs :
    (row : PositionPointSql) (t : Tables)
    → any (λ (p : PositionPointSql). p.id == row.id) t.position_points ≡ false
    → add_point row t ≡ (ok tt, with_points t (t.position_points ++ row ∷ []))
unfolding add_point ◌>>=◌
add_point-runs row t e = rw e refl

pub add_points-runs :
    (ids : List Text) (t : Tables)
    → UniqueBy (λ (p : PositionPointSql). p.id) (t.position_points ++ map point_row ids)
    → add_points ids t ≡ (ok tt, with_points t (t.position_points ++ map point_row ids))
unfolding add_points ◌>>=◌ pure
add_points-runs [] t u =
    ap (λ rows. (ok tt, with_points t rows)) (sym (append-nil t.position_points))
add_points-runs (id ∷ ids) t u =
    rw
      (add_point-runs (point_row id) t (
        no_row (λ p. p.id) id t.position_points
          (UniqueBy-middle (λ p. p.id) t.position_points (point_row id) (map point_row ids) u)))
      (add_points-runs ids (with_points t (t.position_points ++ point_row id ∷ []))
          (subst (UniqueBy (λ p. p.id)) (sym joined) u)
        ∙ ap (λ rows. (ok tt, with_points t rows)) joined)
  where
    joined :
        (t.position_points ++ point_row id ∷ []) ++ map point_row ids
        ≡ t.position_points ++ point_row id ∷ map point_row ids
    joined = append_assoc t.position_points (point_row id ∷ []) (map point_row ids)

-- ---- the ids are distinct

abbrev Distinct : List Text → Type 0
Distinct = UniqueBy (λ x. x)

add_positions-Distinct :
    (uuid : Text → Text) (gs : List GNodeGt) (ids : List Text)
    → Distinct ids
    → Distinct (add_positions uuid gs ids)
unfolding add_positions
add_positions-Distinct uuid [] ids u = u
add_positions-Distinct uuid (g ∷ gs) ids u = elim (Option-cases g.position_point_id) [
  | inl e ↦ rw (e) (add_positions-Distinct uuid gs ids u)
  | inr (id, e) ↦ elim (Bool-cases (contains ids id)) [
    | inl c ↦ rw (e, c) (add_positions-Distinct uuid gs ids u)
    | inr c ↦
        rw (e, c)
          (add_positions-Distinct uuid gs (ids ++ id ∷ [])
            (UniqueBy-append (λ x. x) ids id u (not_contained id ids c)))
  ]
]

insert_sorted-Distinct :
    (x : Text) (xs : List Text)
    → Distinct xs
    → All (λ y. y ≢ x) xs
    → Distinct (insert_sorted text_leb x xs)
unfolding insert_sorted
insert_sorted-Distinct x [] u n = (tt, tt)
insert_sorted-Distinct x (y ∷ ys) u n = elim (Bool-cases (text_leb x y)) [
  | inl e ↦ rw e (n, u)
  | inr e ↦ rw e (
    All-of _ (insert_sorted text_leb x ys) λ z i same.
        elim ((In-insert_sorted text_leb z x ys).0 i) [
          | inl p ↦ n.0 (sym same ∙ p)
          | inr j ↦ All-In _ z ys u.0 j same
        ],
    insert_sorted-Distinct x ys u.1 n.1,
  )
]

sort-Distinct : (xs : List Text) → Distinct xs → Distinct (sort text_leb xs)
unfolding sort
sort-Distinct [] u = tt
sort-Distinct (x ∷ xs) u =
    insert_sorted-Distinct x (sort text_leb xs) (sort-Distinct xs u.1)
      (All-of _ (sort text_leb xs) λ y i. All-In _ y xs u.0 ((In-sort text_leb y xs).0 i))

-- The sorted positions of nodes, with one more, are the ids of distinct rows.
pub positions_distinct :
    (uuid : Text → Text) (gs : List GNodeGt) (id : Text)
    → UniqueBy
        (λ (p : PositionPointSql). p.id)
        (map point_row (sort text_leb (add_positions uuid gs (id ∷ []))))
positions_distinct uuid gs id =
    UniqueBy-map (λ x. x) (λ p. p.id) point_row _ (λ x y i j e. e)
      (sort-Distinct _ (add_positions-Distinct uuid gs (id ∷ []) (tt, tt)))
