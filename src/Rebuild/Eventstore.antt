-- ===== src/Rebuild/Eventstore.antt =====
-- `S3Eventstore` of src/gnr/rebuild.py: the listing of a bucket day by day. A date is its ordinal;
-- the text of a date and the pages of the client are parameters.
use grid_node_registry.Prelude.{
  ℕ, zero, suc, ◌-◌, ◌≤◌, ◌<◌, ◌≡◌, ap, length, ◌↔◌, ◌⊎◌, inl, inr, refl, subst, arith, true, false,
  List, [], ◌∷◌, ◌++◌, Text, codes, flat_map, leb, In, In-append, In-append_left, In-append_right,
  Bool-cases, if◌then◌else◌,
}

pub record S3Eventstore : Type 0 where
  pub world_instance : Text
  pub start : ℕ
  pub end : ℕ

-- The values of `day` in the loop; the fuel bounds its rounds.
unfoldable pub days_from : ℕ → ℕ → ℕ → List ℕ
days_from zero day end = []
days_from (suc fuel) day end =
    let rest = days_from fuel (suc day) end in if leb day end then day ∷ rest else []

-- One round for each day from the start to the end.
unfoldable pub listed_days : S3Eventstore → List ℕ
listed_days s = days_from (suc s.end - s.start) s.start s.end

module _ (day_text : ℕ → Text) (pages : Text → List (List Text)) (s : S3Eventstore) where
  unfoldable pub day_prefix : ℕ → Text
  day_prefix day = s.world_instance ++ codes "/eventstore/" ++ day_text day ++ codes "/"

  unfoldable pub list_keys : List Text
  list_keys = flat_map (λ day. flat_map (λ page. page) (pages (day_prefix day))) (listed_days s)

In-flat_map :
    {A B : Type 0} (f : A → List B) (b : B) (xs : List A)
    → In b (flat_map f xs) ↔ ((a : A) × In a xs × In b (f a))
In-flat_map f b [] = (λ i. absurd i, λ (a, i, j). absurd i)
In-flat_map f b (x ∷ xs) = (
  λ i. elim (In-append b (f x) (flat_map f xs) i) [
    | inl j ↦ (x, inl refl, j)
    | inr j ↦ let (a, k, l) = (In-flat_map f b xs).0 j in (a, inr k, l)
  ],
  λ (a, i, j). elim i [
    | inl e ↦ In-append_left b (f x) _ (subst (λ y. In b (f y)) e j)
    | inr k ↦ In-append_right b (f x) _ ((In-flat_map f b xs).1 (a, k, j))
  ],
)

today_or_later : (a b : ℕ) → a ≤ b → (b ≡ a) ⊎ (suc a ≤ b)
today_or_later a b h = ground arith

leb-true : (a b : ℕ) → leb a b ≡ true → a ≤ b
leb-true a b h = ground arith

leb-false : (a b : ℕ) → leb a b ≡ false → suc b ≤ a
leb-false a b h = ground arith

-- Fuel that reaches the end is enough.
In-days_from :
    (fuel day end d : ℕ)
    → suc end - day ≤ fuel
    → In d (days_from fuel day end) ↔ ((day ≤ d) × (d ≤ end))
unfolding days_from
In-days_from zero day end d h = (λ i. absurd i, λ (p, q). absurd (omega arith))
In-days_from (suc fuel) day end d h = elim (Bool-cases (leb day end)) [
  | inl e ↦
      let now = leb-true day end e in
      rw e (
        λ i. elim i [
          | inl p ↦ (omega arith, omega arith)
          | inr j ↦
              let (p, q) = (In-days_from fuel (suc day) end d (omega arith)).0 j in (omega arith, q)
        ],
        λ (p, q). elim (today_or_later day d p) [
          | inl e ↦ inl e
          | inr l ↦ inr ((In-days_from fuel (suc day) end d (omega arith)).1 (l, q))
        ],
      )
  | inr e ↦ let gone = leb-false day end e in rw e (λ i. absurd i, λ (p, q). absurd (omega arith))
]

-- What is listed is exactly the keys of the pages of the days from the start to the end, both included.
In-list_keys :
    (day_text : ℕ → Text) (pages : Text → List (List Text)) (s : S3Eventstore) (key : Text)
    → In key (list_keys day_text pages s) ↔ (
        (day : ℕ) × ((s.start ≤ day) × (day ≤ s.end))
        × ((page : List Text) × In page (pages (day_prefix day_text pages s day)) × In key page))
unfolding list_keys listed_days
In-list_keys day_text pages s key =
    let (f, g) = In-flat_map (keys_of_day) key (days_from (suc s.end - s.start) s.start s.end) in
    (
      λ i.
          let (day, j, k) = f i in
          let (page, l, m) =
            (In-flat_map (λ page. page) key (pages (day_prefix day_text pages s day))).0 k in
          (day, (In-days_from _ s.start s.end day (omega arith)).0 j, (page, l, m)),
      λ (day, range, (page, l, m)). g (
        day,
        (In-days_from _ s.start s.end day (omega arith)).1 range,
        (In-flat_map (λ page. page) key (pages (day_prefix day_text pages s day))).1 (page, l, m),
      ),
    )
  where
    keys_of_day : ℕ → List Text
    keys_of_day day = flat_map (λ page. page) (pages (day_prefix day_text pages s day))

-- ---- the loop

-- The loop `while day <= end`, as a relation: from `day` it ends after the rounds of `days`.
pub data Ends (end : ℕ) : ℕ → List ℕ → Type 0 where
  stops : (day : ℕ) → end < day → Ends end day []
  round :
      (day : ℕ) (days : List ℕ) → day ≤ end → Ends end (suc day) days → Ends end day (day ∷ days)

days_from-Ends : (fuel day end : ℕ) → suc end - day ≤ fuel → Ends end day (days_from fuel day end)
unfolding days_from
days_from-Ends zero day end h = stops day (omega arith)
days_from-Ends (suc fuel) day end h = elim (Bool-cases (leb day end)) [
  | inl e ↦
      rw (e, days_from)
        (round day _ (leb-true day end e) (days_from-Ends fuel (suc day) end (omega arith)))
  | inr e ↦ rw (e, days_from) (stops day (leb-false day end e))
]

-- The loop has one course.
Ends-unique : (end day : ℕ) (xs ys : List ℕ) → Ends end day xs → Ends end day ys → xs ≡ ys
Ends-unique end _ _ _ (stops day h) (stops _ k) = refl
Ends-unique end _ _ _ (stops day h) (round _ days k l) = absurd (omega arith)
Ends-unique end _ _ _ (round day xs h l) (stops _ k) = absurd (omega arith)
Ends-unique end _ _ _ (round day xs h l) (round _ ys k m) =
    ap (λ zs. day ∷ zs) (Ends-unique end (suc day) xs ys l m)

Ends-length : (end day : ℕ) (days : List ℕ) → Ends end day days → length days ≡ suc end - day
Ends-length end _ _ (stops day h) = omega arith
Ends-length end _ _ (round day days h k) = ground (arith, Ends-length end (suc day) days k)

pub listed_days-Ends :
    (day_text : ℕ → Text) (pages : Text → List (List Text)) (s : S3Eventstore) (fuel : ℕ)
    → suc s.end - s.start ≤ fuel
    → Ends s.end s.start (days_from fuel s.start s.end)
      × (days_from fuel s.start s.end ≡ listed_days s)
      × (length (listed_days s) ≡ suc s.end - s.start)
      × ((key : Text)
          → In key (list_keys day_text pages s) ↔ (
              (day : ℕ) × ((s.start ≤ day) × (day ≤ s.end))
              × ((page : List Text) × In page (pages (day_prefix day_text pages s day))
                  × In key page)))
unfolding listed_days
listed_days-Ends day_text pages s fuel enough =
    let model : Ends s.end s.start (listed_days s) =
      days_from-Ends (suc s.end - s.start) s.start s.end (omega arith) in
    let run : Ends s.end s.start (days_from fuel s.start s.end) =
      days_from-Ends fuel s.start s.end enough in
    (
      run,
      Ends-unique s.end s.start _ _ run model,
      Ends-length s.end s.start _ model,
      In-list_keys day_text pages s,
    )
