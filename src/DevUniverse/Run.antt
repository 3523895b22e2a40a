-- ===== src/DevUniverse/Run.antt =====
-- A run of `seed_dev_universe` (src/gnr/dev_universe.py).
use grid_node_registry.Prelude.{
  ◌≡◌, ◌≢◌, refl, sym, subst, arith, inl, inr, Bool, true, false, not, ◌&&◌, Option, none, some,
  List, [], ◌∷◌, map, Text, text_eq, ◌==◌, ==_refl, any, In-map_inv, In, In-map, All, All-of,
  UniqueBy, UniqueBy-map,
}
use grid_node_registry.Sema.GNode.{GNodeGt}
use grid_node_registry.Sema.Enums.{class_eq, status_eq}
use grid_node_registry.Registry.Models.{Tables, row_of_gt}
use grid_node_registry.Registry.Validate.{validate_registry}
use grid_node_registry.Registry.Session.{ok, pure, has_point, ◌>>=◌}
use grid_node_registry.DevUniverse.{
  DevSpec, dev_g_node_id_for, dev_universe_specs, build_dev_universe, dev_node, dev_universe,
  point_row, seed_dev_universe, add_points, add_nodes, claim_aliases, reset_tables, dev_position_id,
}
use grid_node_registry.Registry.Inserts.{with_nodes}
use grid_node_registry.DevUniverse.Points.{add_points-runs, positions_distinct}
use grid_node_registry.DevUniverse.Seeding.{add_nodes-runs, claim_aliases-runs, claim_row}
use grid_node_registry.DevUniverse.Clean.{
  dev_rows, dev_points, seeded_tables, registered, seeded-clean,
}

-- The test of all pairs.
abbrev distinct : List Text → Bool
distinct [] = true
distinct (x ∷ xs) = let rest = distinct xs in not (any (λ y. y == x) xs) && rest

aliases_distinct : distinct (map (λ s. s.alias) dev_universe_specs) ≡ true
unfolding text_eq
aliases_distinct = refl

-- No two seeds of the nodes have one id.
abbrev pub TellsApart : (Text → Text) → Type 0
TellsApart uuid =
    (a b : DevSpec)
    → In a dev_universe_specs
    → In b dev_universe_specs
    → dev_g_node_id_for uuid a.alias ≡ dev_g_node_id_for uuid b.alias
    → a.alias ≡ b.alias

UniqueBy-of :
    {A : Type 0} (key : A → Text) (xs : List A) → distinct (map key xs) ≡ true → UniqueBy key xs
UniqueBy-of key [] h = tt
UniqueBy-of key (x ∷ xs) h =
    (absent key (key x) xs (ground arith), UniqueBy-of key xs (ground arith))
  where
    absent :
        {A : Type 0} (key : A → Text) (k : Text) (xs : List A)
        → any (λ y. y == k) (map key xs) ≡ false
        → All (λ y. key y ≢ k) xs
    absent key k [] h = tt
    absent key k (x ∷ xs) h = (ground arith, absent key k xs (ground arith))

has_row :
    {A : Type 0} (key : A → Text) (k : Text) (xs : List A)
    → In k (map key xs)
    → any (λ x. key x == k) xs ≡ true
has_row key k [] i = absurd i
has_row key k (x ∷ xs) (inl e) = rw (e, ==_refl (key x)) refl
has_row key k (x ∷ xs) (inr i) = ground (arith, has_row key k xs i)

module _ (uuid : Text → Text) (h : TellsApart uuid) where
  aliases_unique : UniqueBy (λ (g : GNodeGt). g.alias) (build_dev_universe uuid)
  unfolding build_dev_universe dev_node
  aliases_unique =
      UniqueBy-map (λ s. s.alias) (λ g. g.alias) (dev_node uuid) dev_universe_specs (λ x y i j e. e)
        (UniqueBy-of (λ s. s.alias) dev_universe_specs aliases_distinct)

  ids_unique : UniqueBy (λ (g : GNodeGt). g.g_node_id) (build_dev_universe uuid)
  unfolding build_dev_universe dev_node
  ids_unique =
      UniqueBy-map (λ s. s.alias) (λ g. g.g_node_id) (dev_node uuid) dev_universe_specs
        (λ x y i j e. h x y i j e) (UniqueBy-of (λ s. s.alias) dev_universe_specs aliases_distinct)

  -- The tables when the positions are in.
  abbrev placed : Tables → Tables
  placed t = record t {
    position_points = map point_row (dev_points uuid);
    connectivity_edges = [];
    g_nodes = [];
    alias_assignment = [];
  }

  points_in : (t : Tables) → add_points (dev_points uuid) (reset_tables t) ≡ (ok tt, placed t)
  unfolding reset_tables
  points_in t =
      add_points-runs (dev_points uuid) (reset_tables t)
        (positions_distinct uuid (build_dev_universe uuid) (dev_position_id uuid))

  points_there :
      (t : Tables)
      → All
          (λ (g : GNodeGt). has_point (placed t) g.position_point_id ≡ true)
          (build_dev_universe uuid)
  unfolding build_dev_universe
  points_there t = All-of _ (build_dev_universe uuid) λ g i.
      let (s, k, f) = In-map_inv (dev_node uuid) g dev_universe_specs i in
      subst (λ x. has_point (placed t) x.position_point_id ≡ true) (sym f)
        (of_spec s k (dev_node uuid s).position_point_id refl)
    where
      of_spec :
          (s : DevSpec)
          → In s dev_universe_specs
          → (o : Option Text) → (dev_node uuid s).position_point_id ≡ o
          → has_point (placed t) o ≡ true
      of_spec s k none e = refl
      of_spec s k (some id) e =
          has_row (λ p. p.id) id (map point_row (dev_points uuid)) (registered uuid s id k e)

  nodes_in :
      (t : Tables)
      → add_nodes (build_dev_universe uuid) (placed t)
        ≡ (ok tt, with_nodes (placed t) (dev_rows uuid))
  unfolding row_of_gt
  nodes_in t =
      add_nodes-runs (build_dev_universe uuid) (placed t)
        (UniqueBy-map (λ g. g.g_node_id) (λ n. n.id) row_of_gt (build_dev_universe uuid)
          (λ x y i j e. e) ids_unique)
        (UniqueBy-map (λ g. g.alias) (λ n. n.alias) row_of_gt (build_dev_universe uuid)
          (λ x y i j e. e) aliases_unique)
        (points_there t)

  claims_in :
      (t : Tables)
      → claim_aliases (build_dev_universe uuid) (with_nodes (placed t) (dev_rows uuid))
        ≡ (ok tt, seeded_tables uuid t)
  unfolding row_of_gt
  claims_in t =
      claim_aliases-runs (build_dev_universe uuid) (with_nodes (placed t) (dev_rows uuid))
        (UniqueBy-map (λ g. g.alias) (λ c. c.alias) claim_row (build_dev_universe uuid)
          (λ x y i j e. e) aliases_unique)
        (All-of _ (build_dev_universe uuid) λ g i.
          has_row (λ n. n.id) g.g_node_id (dev_rows uuid)
            (In-map (λ n. n.id) (row_of_gt g) (dev_rows uuid)
              (In-map row_of_gt g (build_dev_universe uuid) i)))

-- The seed, with its reset, runs on any tables, and leaves the development universe and nothing else but
-- the log of commands; the audit finds no violation. The ids of the nodes are to be different.
pub seed_dev_universe-clean :
    (uuid : Text → Text) (t : Tables)
    → TellsApart uuid
    → (seed_dev_universe uuid true t ≡ (ok (build_dev_universe uuid), seeded_tables uuid t))
      × (validate_registry (seeded_tables uuid t) dev_universe ≡ [])
unfolding seed_dev_universe ◌>>=◌ pure
seed_dev_universe-clean uuid t h =
    (rw (points_in uuid h t, nodes_in uuid h t, claims_in uuid h t) refl, seeded-clean uuid t)
