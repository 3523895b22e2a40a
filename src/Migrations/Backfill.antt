-- ===== src/Migrations/Backfill.antt =====
-- The second revision of src/alembic/versions: the rows that it inserts before the foreign key lands.
use grid_node_registry.Prelude.{
  ◌≡◌, ◌≢◌, refl, sym, subst, inl, inr, arith, true, false, Option, none, some, List, [], ◌∷◌, ◌++◌,
  map, Text, text_eq, ◌==◌, ==_refl, ==→≡, contains, all, Bool-cases, All, UniqueBy,
  UniqueBy-append, All-concat, not_contained, append_assoc, append-nil,
}
use grid_node_registry.Migrations.{migrate, missing, is_known}
use grid_node_registry.Migrations.Revisions.{upgrade_lifecycle, downgrade_lifecycle}
use grid_node_registry.Migrations.Mirror.{
  shape, metadata, initial_tables, lifecycle_tables, restored_tables, lifecycle-shape,
  restored-shape, at_initial, at_lifecycle,
}

abbrev Distinct : List Text → Type 0
Distinct = UniqueBy (λ x. x)

seen_more :
    (id x : Text) (ids : List Text)
    → contains (id ∷ ids) x ≡ false
    → (id ≢ x) × (contains ids x ≡ false)
seen_more id x ids h = let all_differ = not_contained x (id ∷ ids) h in (all_differ.0, ground arith)

held :
    (k ids : List Text) (id : Text)
    → ((x : Text) → contains ids x ≡ true → contains k x ≡ true)
    → contains k id ≡ true
    → (x : Text) → contains (id ∷ ids) x ≡ true
    → contains k x ≡ true
held k ids id h own x e = elim (Bool-cases (x == id)) [
  | inl p ↦ subst (λ y. contains k y ≡ true) (sym (==→≡ x id p)) own
  | inr p ↦ h x (ground arith)
]

-- With the missing ids every id that is carried is known.
known :
    (k ids : List Text) (carried : List (Option Text))
    → ((x : Text) → contains ids x ≡ true → contains k x ≡ true)
    → ((x : Text) → contains (missing ids carried) x ≡ true → contains k x ≡ true)
    → all (is_known k) carried ≡ true
unfolding missing
known k ids [] h m = refl
known k ids (none ∷ carried) h m = known k ids carried h m
known k ids (some id ∷ carried) h m = elim (Bool-cases (contains ids id)) [
  | inl c ↦ rw (h id c) (known k ids carried h (rw c at m))
  | inr c ↦
      let later : (x : Text)
          → contains (id ∷ missing (id ∷ ids) carried) x ≡ true
          → contains k x ≡ true =
        rw c at m in
      rw (later id (rw (==_refl id) refl)) (
        known k (id ∷ ids) carried (held k ids id h (later id (rw (==_refl id) refl)))
          (λ x e. later x (ground arith)))
]

missing-Distinct :
    (p ids : List Text) (carried : List (Option Text))
    → Distinct p
    → ((x : Text) → contains ids x ≡ false → All (λ y. y ≢ x) p)
    → Distinct (p ++ missing ids carried)
unfolding missing
missing-Distinct p ids [] u n = subst Distinct (sym (append-nil p)) u
missing-Distinct p ids (none ∷ carried) u n = missing-Distinct p ids carried u n
missing-Distinct p ids (some id ∷ carried) u n = elim (Bool-cases (contains ids id)) [
  | inl c ↦ rw c (missing-Distinct p ids carried u n)
  | inr c ↦ rw c (
      subst Distinct (append_assoc p (id ∷ []) (missing (id ∷ ids) carried)) (
        missing-Distinct (p ++ id ∷ []) (id ∷ ids) carried
          (UniqueBy-append (λ x. x) p id u (n id c))
          (λ x e. let (d, f) = seen_more id x ids e in All-concat _ p id (n x f) d)))
]

contains-append_left :
    (x : Text) (xs ys : List Text) → contains xs x ≡ true → contains (xs ++ ys) x ≡ true
contains-append_left x [] ys h = cc
contains-append_left x (y ∷ xs) ys h = ground (arith, contains-append_left x xs ys)

contains-append_right :
    (x : Text) (xs ys : List Text) → contains ys x ≡ true → contains (xs ++ ys) x ≡ true
contains-append_right x [] ys h = h
contains-append_right x (y ∷ xs) ys h = ground (arith, contains-append_right x xs ys)

module _ (positions : List Text) (carried : List (Option Text)) where
  abbrev backfilled : List Text
  backfilled = positions ++ missing positions carried

  pub all_known : all (is_known backfilled) carried ≡ true
  all_known =
      known backfilled positions carried
        (λ x e. contains-append_left x positions (missing positions carried) e)
        (λ x e. contains-append_right x positions (missing positions carried) e)

  -- On a database at the first revision, whatever its nodes carry, the second one runs to its end: it
  -- leaves the tables that the models declare, keeps each position, inserts those that nodes carry,
  -- none of them twice, and so meets its foreign key.
  pub upgrade_lifecycle-mirrors :
      UniqueBy (λ x. x) positions
      → (migrate upgrade_lifecycle (at_initial positions carried)
          ≡ some (at_lifecycle (positions ++ missing positions carried) carried))
        × (map shape lifecycle_tables ≡ map shape metadata)
        × UniqueBy (λ x. x) (positions ++ missing positions carried)
        × (all (is_known (positions ++ missing positions carried)) carried ≡ true)
  unfolding migrate upgrade_lifecycle
  upgrade_lifecycle-mirrors u = (
    rw all_known refl,
    lifecycle-shape,
    missing-Distinct positions positions carried u (λ x e. not_contained x positions e),
    all_known,
  )

  -- The second revision is taken back: the tables are those of the first but for the order of columns
  -- and the default of the two coordinates, and the positions that it inserted stay.
  pub downgrade_lifecycle-restores :
      (migrate (upgrade_lifecycle ++ downgrade_lifecycle) (at_initial positions carried)
        ≡ some (record (at_lifecycle (positions ++ missing positions carried) carried) {
          tables = restored_tables;
        }))
      × (map shape restored_tables ≡ map shape initial_tables)
  unfolding migrate upgrade_lifecycle downgrade_lifecycle
  downgrade_lifecycle-restores = (rw all_known refl, restored-shape)
