-- ===== src/Rebuild/Order.antt =====
-- The selection and the order of a capture: `capture_objects` of src/gnr/rebuild.py.
use grid_node_registry.Prelude.{
  ℕ, ◌<◌, ◌≡◌, ◌↔◌, ◌⊎◌, inl, inr, refl, sym, ◌∙◌, arith, Bool, true, false, some, List, [], ◌∷◌,
  ◌++◌, Text, text_eq, nat_eq, contains, All, All-In, All-of, In, In-append, In-append_left,
  In-append_right, In-sort, In-insert_sorted, insert_sorted, sort, text_leb, Bool-cases,
  Option-cases,
}
use mathlib.Core.Option.{some-injective}
use grid_node_registry.Rebuild.{
  CaptureObject, ObjectStore, RebuildReport, parse_object_key, replay_type_names, select_objects,
  capture_objects, capture_leb,
}

-- ---- sorted lists

module _ {A : Type 0} (le : A → A → Bool) where
  abbrev pub Sorted : List A → Type 0
  Sorted [] = Unit
  Sorted (x ∷ xs) = All (λ y. le x y ≡ true) xs × Sorted xs

module _ {A : Type 0} (le : A → A → Bool) (total : (a b : A) → le a b ≡ false → le b a ≡ true)
    (transitive : (a b c : A) → le a b ≡ true → le b c ≡ true → le a c ≡ true) where
  insert_sorted-Sorted : (a : A) (xs : List A) → Sorted le xs → Sorted le (insert_sorted le a xs)
  unfolding insert_sorted
  insert_sorted-Sorted a [] h = (tt, tt)
  insert_sorted-Sorted a (x ∷ xs) (h, s) = elim (Bool-cases (le a x)) [
    | inl e ↦ rw e ((e, All-of _ xs λ y i. transitive a x y e (All-In _ y xs h i)), (h, s))
    | inr e ↦ rw e (
      All-of _ (insert_sorted le a xs) λ y i. elim ((In-insert_sorted le y a xs).0 i) [
        | inl p ↦ rw p (total a x e)
        | inr j ↦ All-In _ y xs h j
      ],
      insert_sorted-Sorted a xs s,
    )
  ]

  sort-Sorted : (xs : List A) → Sorted le (sort le xs)
  unfolding sort
  sort-Sorted [] = tt
  sort-Sorted (x ∷ xs) = insert_sorted-Sorted x (sort le xs) (sort-Sorted xs)

-- ---- the order of a capture

compare_cases : (a b : ℕ) → (a < b) ⊎ ((a ≡ b) ⊎ (b < a))
compare_cases a b = ground arith

text_leb-total : (s t : Text) → text_leb s t ≡ false → text_leb t s ≡ true
unfolding text_leb
text_leb-total [] t h = ground arith
text_leb-total (c ∷ s) [] h = refl
text_leb-total (c ∷ s) (d ∷ t) h = ground (arith, text_leb-total s t)

text_leb-transitive :
    (s t u : Text) → text_leb s t ≡ true → text_leb t u ≡ true → text_leb s u ≡ true
unfolding text_leb
text_leb-transitive [] t u h k = refl
text_leb-transitive (c ∷ s) [] u h k = ground arith
text_leb-transitive (c ∷ s) (d ∷ t) [] h k = ground arith
text_leb-transitive (c ∷ s) (d ∷ t) (e ∷ u) h k = ground (arith, text_leb-transitive s t u)

capture_leb-total : (a b : CaptureObject) → capture_leb a b ≡ false → capture_leb b a ≡ true
unfolding capture_leb
capture_leb-total a b h = ground (arith, text_leb-total a.key b.key)

capture_leb-transitive :
    (a b c : CaptureObject)
    → capture_leb a b ≡ true
    → capture_leb b c ≡ true
    → capture_leb a c ≡ true
unfolding capture_leb
capture_leb-transitive a b c h k = ground (arith, text_leb-transitive a.key b.key c.key)

-- The order of texts by their code points.
abbrev pub TextBefore : Text → Text → Type 0
TextBefore [] t = Unit
TextBefore (c ∷ s) [] = ⊥
TextBefore (c ∷ s) (d ∷ t) = (c < d) ⊎ ((c ≡ d) × TextBefore s t)

-- The order of a capture: the time first, then the arrival counter, then the key.
abbrev pub Before : CaptureObject → CaptureObject → Type 0
Before a b =
    (a.persisted_ms < b.persisted_ms)
    ⊎ ((a.persisted_ms ≡ b.persisted_ms)
        × ((a.seq < b.seq) ⊎ ((a.seq ≡ b.seq) × TextBefore a.key b.key)))

text_leb-TextBefore : (s t : Text) → text_leb s t ≡ true → TextBefore s t
unfolding text_leb
text_leb-TextBefore [] t h = tt
text_leb-TextBefore (c ∷ s) [] h = cc h
text_leb-TextBefore (c ∷ s) (d ∷ t) h = elim (compare_cases c d) [
  | inl l ↦ inl l
  | inr (inl e) ↦ inr (e, text_leb-TextBefore s t (ground arith))
  | inr (inr g) ↦ absurd (ground arith)
]

capture_leb-Before : (a b : CaptureObject) → capture_leb a b ≡ true → Before a b
unfolding capture_leb
capture_leb-Before a b h = elim (compare_cases a.persisted_ms b.persisted_ms) [
  | inl l ↦ inl l
  | inr (inr g) ↦ absurd (ground arith)
  | inr (inl e) ↦ inr (
    e,
    elim (compare_cases a.seq b.seq) [
      | inl l ↦ inl l
      | inr (inr g) ↦ absurd (ground arith)
      | inr (inl f) ↦ inr (f, text_leb-TextBefore a.key b.key (ground arith))
    ],
  )
]

-- Each stands before all that follow it.
abbrev pub InOrder : List CaptureObject → Type 0
InOrder [] = Unit
InOrder (o ∷ os) = All (Before o) os × InOrder os

Sorted-InOrder : (os : List CaptureObject) → Sorted capture_leb os → InOrder os
Sorted-InOrder [] h = tt
Sorted-InOrder (o ∷ os) (h, k) =
    (All-of _ os (λ x i. capture_leb-Before o x (All-In _ x os h i)), Sorted-InOrder os k)

-- ---- the selection

-- A key of the listing gives the object.
pub record IsListed (keys : List Text) (o : CaptureObject) : Type 0 where
  pub key : Text
  pub listed : In key keys
  pub parsed : parse_object_key key ≡ some o
  pub replayed : contains replay_type_names o.type_name ≡ true

abbrev Gives : Text → CaptureObject → Type 0
Gives key o = (parse_object_key key ≡ some o) × (contains replay_type_names o.type_name ≡ true)

IsListed-cons :
    (k : Text) (keys : List Text) (o : CaptureObject)
    → IsListed (k ∷ keys) o ↔ (Gives k o ⊎ IsListed keys o)
IsListed-cons k keys o = (
  λ h. split h h.listed,
  λ x. elim x [
    | inl (e, r) ↦ record { key = k; listed = inl refl; parsed = e; replayed = r }
    | inr h ↦ record {
      key = h.key;
      listed = inr h.listed;
      parsed = h.parsed;
      replayed = h.replayed;
    }
  ],
)
  where
    split : (h : IsListed (k ∷ keys) o) → In h.key (k ∷ keys) → Gives k o ⊎ IsListed keys o
    split h (inl e) = inl (rw e at h.parsed, h.replayed)
    split h (inr i) =
        inr (record { key = h.key; listed = i; parsed = h.parsed; replayed = h.replayed })

combine : {X S S' G L L' : Type 0} → X ↔ (S' ⊎ L) → S' ↔ (S ⊎ G) → L' ↔ (G ⊎ L) → X ↔ (S ⊎ L')
combine (f, g) (h, k) (l, m) = (
  λ x. elim (f x) [
    | inl s ↦ elim (h s) [ inl i ↦ inl i | inr j ↦ inr (m (inl j)) ]
    | inr i ↦ inr (m (inr i))
  ],
  λ x. elim x [
    | inl s ↦ g (inl (k (inl s)))
    | inr i ↦ elim (l i) [ inl j ↦ g (inl (k (inr j))) | inr j ↦ g (inr j) ]
  ],
)

nothing_new : {S G : Type 0} → (G → ⊥) → S ↔ (S ⊎ G)
nothing_new no_more = (λ s. inl s, λ x. elim x [ inl s ↦ s | inr g ↦ absurd (no_more g) ])

one_new :
    (o c : CaptureObject) (k : Text) (selected : List CaptureObject)
    → parse_object_key k ≡ some c
    → contains replay_type_names c.type_name ≡ true
    → In o (selected ++ c ∷ []) ↔ (In o selected ⊎ Gives k o)
one_new o c k selected e r = (
  λ i. elim (In-append o selected (c ∷ []) i) [
    | inl j ↦ inl j
    | inr (inl p) ↦ inr (rw (p, e) (refl, r))
    | inr (inr j) ↦ absurd j
  ],
  λ x. elim x [
    | inl i ↦ In-append_left o selected _ i
    | inr (p, q) ↦ In-append_right o selected _ (inl (some-injective _ _ (sym p ∙ e)))
  ],
)

select_objects_iff :
    (keys : List Text) (selected : List CaptureObject) (report : RebuildReport) (o : CaptureObject)
    → In o (select_objects keys selected report).0 ↔ (In o selected ⊎ IsListed keys o)
unfolding select_objects
select_objects_iff [] selected report o =
    (λ i. inl i, λ x. elim x [ inl i ↦ i | inr h ↦ absurd h.listed ])
select_objects_iff (k ∷ keys) selected report o = elim (Option-cases (parse_object_key k)) [
  | inl e ↦
      rw (e, select_objects)
        (combine (select_objects_iff keys selected _ o) (nothing_new λ (p, r). cc (e, p))
          (IsListed-cons k keys o))
  | inr (c, e) ↦ elim (Bool-cases (contains replay_type_names c.type_name)) [
    | inl r ↦
        rw (e, select_objects, r)
          (combine (select_objects_iff keys (selected ++ c ∷ []) _ o) (one_new o c k selected e r)
            (IsListed-cons k keys o))
    | inr r ↦
        rw (e, select_objects, r)
          (combine (select_objects_iff keys selected _ o)
            (nothing_new λ (p, q). other_type c o k e p r q) (IsListed-cons k keys o))
  ]
]
  where
    other_type :
        (c o : CaptureObject) (k : Text)
        → parse_object_key k ≡ some c
        → parse_object_key k ≡ some o
        → contains replay_type_names c.type_name ≡ false
        → contains replay_type_names o.type_name ≡ true
        → ⊥
    other_type c o k e p r q = cc (some-injective _ _ (sym e ∙ p), r, q)

-- The objects to replay are exactly those that a key of the listing gives and whose type is one of the
-- three, and stand in the order of the time, then of the arrival, then of the key.
pub capture_objects-InOrder :
    (store : ObjectStore) (report : RebuildReport)
    → InOrder (capture_objects store report).0
      × ((o : CaptureObject) → In o (capture_objects store report).0 ↔ IsListed store.list_keys o)
unfolding capture_objects
capture_objects-InOrder store report =
    let selected = (select_objects store.list_keys [] report).0 in
    (
      Sorted-InOrder _ (sort-Sorted capture_leb capture_leb-total capture_leb-transitive selected),
      λ o.
          chosen o (In-sort capture_leb o selected)
            (select_objects_iff store.list_keys [] report o),
    )
  where
    chosen : {X Y L : Type 0} (o : CaptureObject) → X ↔ Y → Y ↔ (⊥ ⊎ L) → X ↔ L
    chosen o (f, g) (h, k) =
        (λ x. elim (h (f x)) [ inl i ↦ absurd i | inr l ↦ l ], λ l. g (k (inr l)))
