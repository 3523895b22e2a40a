-- ===== src/Prelude/Sorting.antt =====
-- Python's `sorted` and SQL's ORDER BY: the stable sort by an order, as an insertion sort.
use grid_node_registry.Prelude.Equality.{if◌then◌else◌, Text, ltb, Bool-cases}
use grid_node_registry.Prelude.Lists.{In}
use mathlib.Core.Path.{◌≡◌}
use mathlib.Core.Logic.{◌↔◌, ◌⊎◌, inl, inr}
use mathlib.Core.Bool.{Bool, true, false}
use mathlib.Core.List.{List, [], ◌∷◌}

-- Code point order, `a <= b` on Python's `str`.
unfoldable pub text_leb : Text → Text → Bool
text_leb [] t = true
text_leb (c ∷ s) [] = false
text_leb (c ∷ s) (d ∷ t) =
    let rest = text_leb s t in if ltb c d then true else if ltb d c then false else rest

module _ {A : Type 0} (le : A → A → Bool) where
  unfoldable pub insert_sorted : A → List A → List A
  insert_sorted a [] = a ∷ []
  insert_sorted a (x ∷ xs) = if le a x then a ∷ x ∷ xs else x ∷ insert_sorted a xs

  unfoldable pub sort : List A → List A
  unfolding insert_sorted
  sort [] = []
  sort (x ∷ xs) = insert_sorted x (sort xs)

module _ {A : Type 0} (le : A → A → Bool) where
  pub In-insert_sorted :
      (a x : A) (xs : List A) → In a (insert_sorted le x xs) ↔ ((a ≡ x) ⊎ In a xs)
  unfolding insert_sorted
  In-insert_sorted a x [] = (λ i. i, λ i. i)
  In-insert_sorted a x (y ∷ xs) = elim (Bool-cases (le x y)) [
    | inl e ↦ rw e (λ i. i, λ i. i)
    | inr e ↦ rw e (
      λ i. elim i [
        | inl p ↦ inr (inl p)
        | inr j ↦ elim ((In-insert_sorted a x xs).0 j) [ inl p ↦ inl p | inr k ↦ inr (inr k) ]
      ],
      λ i. elim i [
        | inl p ↦ inr ((In-insert_sorted a x xs).1 (inl p))
        | inr j ↦ elim j [ inl p ↦ inl p | inr k ↦ inr ((In-insert_sorted a x xs).1 (inr k)) ]
      ],
    )
  ]

  -- A sort keeps the elements.
  pub In-sort : (a : A) (xs : List A) → In a (sort le xs) ↔ In a xs
  unfolding sort
  In-sort a [] = (λ i. i, λ i. i)
  In-sort a (x ∷ xs) = (
    λ i. elim ((In-insert_sorted a x (sort le xs)).0 i) [
      | inl p ↦ inl p
      | inr j ↦ inr ((In-sort a xs).0 j)
    ],
    λ i. elim i [
      | inl p ↦ (In-insert_sorted a x (sort le xs)).1 (inl p)
      | inr j ↦ (In-insert_sorted a x (sort le xs)).1 (inr ((In-sort a xs).1 j))
    ],
  )
