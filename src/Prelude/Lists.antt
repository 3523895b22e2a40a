-- ===== src/Prelude/Lists.antt =====
-- Lists of rows: predicates by recursion, filters and searches by a Boolean test.
use Prim.Native.Nat.{ℕ, suc}
use mathlib.Core.Path.{◌≡◌, refl, sym, subst, ap, ◌∙◌}
use mathlib.Core.Logic.{◌⊎◌, ◌↔◌, ◌≢◌, inl, inr}
use mathlib.Core.Bool.{Bool, true, false, ◌||◌, ◌&&◌}
use mathlib.Core.Option.{Option, none, some}
use mathlib.Core.List.{List, [], ◌∷◌, ◌++◌, map}
use native.Mathlib.Omega.{arith}
use grid_node_registry.Prelude.Equality.{
  Eq, ◌==◌, if◌then◌else◌, Bool-cases, Option-cases, ==→≡, ==_refl,
}

module _ {ℓ} {A : Type ℓ} where
  abbrev pub length : List A → ℕ
  length [] = 0
  length (x ∷ xs) = suc (length xs)

  abbrev pub any : (A → Bool) → List A → Bool
  any p [] = false
  any p (x ∷ xs) = p x || any p xs

  abbrev pub all : (A → Bool) → List A → Bool
  all p [] = true
  all p (x ∷ xs) = p x && all p xs

  abbrev pub filter : (A → Bool) → List A → List A
  filter p [] = []
  filter p (x ∷ xs) = let rest = filter p xs in if p x then x ∷ rest else rest

  -- What a loop appends, over all the elements.
  abbrev pub flat_map : {B : Type ℓ} → (A → List B) → List A → List B
  flat_map f [] = []
  flat_map f (x ∷ xs) = f x ++ flat_map f xs

  abbrev pub find? : (A → Bool) → List A → Option A
  find? p [] = none
  find? p (x ∷ xs) = let rest = find? p xs in if p x then some x else rest

abbrev pub is_some {ℓ} : {A : Type ℓ} → Option A → Bool
is_some none = false
is_some (some _) = true

abbrev pub contains {ℓ} : {A : Type ℓ} ⦃e : Eq A⦄ → List A → A → Bool
contains xs a = any (λ x. a == x) xs

abbrev pub All {ℓ κ} : {A : Type ℓ} → (A → Type κ) → List A → Type κ
All P [] = Unit
All P (x ∷ xs) = P x × All P xs

abbrev pub In : {A : Type 0} → A → List A → Type 0
In a [] = ⊥
In a (x ∷ xs) = (a ≡ x) ⊎ In a xs

pub All-concat {ℓ κ} :
    {A : Type ℓ} (P : A → Type κ) (xs : List A) (a : A) → All P xs → P a → All P (xs ++ a ∷ [])
All-concat P [] a h p = (p, tt)
All-concat P (x ∷ xs) a (q, h) p = (q, All-concat P xs a h p)

module _ {A : Type 0} where
  pub In-append_left : (a : A) (xs ys : List A) → In a xs → In a (xs ++ ys)
  In-append_left a [] ys h = absurd h
  In-append_left a (x ∷ xs) ys (inl e) = inl e
  In-append_left a (x ∷ xs) ys (inr h) = inr (In-append_left a xs ys h)

  pub In-append_right : (a : A) (xs ys : List A) → In a ys → In a (xs ++ ys)
  In-append_right a [] ys h = h
  In-append_right a (x ∷ xs) ys h = inr (In-append_right a xs ys h)

  pub In-append : (a : A) (xs ys : List A) → In a (xs ++ ys) → In a xs ⊎ In a ys
  In-append a [] ys h = inr h
  In-append a (x ∷ xs) ys (inl e) = inl (inl e)
  In-append a (x ∷ xs) ys (inr h) = elim (In-append a xs ys h) [
    | inl l ↦ inl (inr l)
    | inr r ↦ inr r
  ]

  pub All-In : (P : A → Type 0) (a : A) (xs : List A) → All P xs → In a xs → P a
  All-In P a [] h m = absurd m
  All-In P a (x ∷ xs) (p, h) (inl e) = subst P (sym e) p
  All-In P a (x ∷ xs) (p, h) (inr m) = All-In P a xs h m

  pub All-of : (P : A → Type 0) (xs : List A) → ((a : A) → In a xs → P a) → All P xs
  All-of P [] h = tt
  All-of P (x ∷ xs) h = (h x (inl refl), All-of P xs (λ a m. h a (inr m)))

  pub In-filter : (p : A → Bool) (a : A) (xs : List A) → In a (filter p xs) → In a xs × (p a ≡ true)
  In-filter p a [] h = absurd h
  In-filter p a (x ∷ xs) h = elim (Bool-cases (p x)) [
    | inl t ↦ elim (rw (t, filter) at h) [
      | inl e ↦ (inl e, rw e t)
      | inr m ↦ let (i, q) = In-filter p a xs m in (inr i, q)
    ]
    | inr f ↦ let (i, q) = In-filter p a xs (rw (f, filter) at h) in (inr i, q)
  ]

  pub In-filter_of :
      (p : A → Bool) (a : A) (xs : List A) → In a xs → p a ≡ true → In a (filter p xs)
  In-filter_of p a [] m t = absurd m
  In-filter_of p a (x ∷ xs) (inl e) t = let q : p x ≡ true = rw e at t in rw (q, filter) (inl e)
  In-filter_of p a (x ∷ xs) (inr m) t = elim (Bool-cases (p x)) [
    | inl y ↦ rw (y, filter) (inr (In-filter_of p a xs m t))
    | inr n ↦ rw (n, filter) (In-filter_of p a xs m t)
  ]

  pub find?-some :
      (p : A → Bool) (a : A) (xs : List A) → find? p xs ≡ some a → In a xs × (p a ≡ true)
  find?-some p a [] h = cc
  find?-some p a (x ∷ xs) h = ground (arith, find?-some p a xs)

  pub find?-none : (p : A → Bool) (a : A) (xs : List A) → find? p xs ≡ none → In a xs → p a ≡ false
  find?-none p a [] h m = absurd m
  find?-none p a (x ∷ xs) h (inl e) = ground arith
  find?-none p a (x ∷ xs) h (inr m) = ground (arith, find?-none p a xs)

pub append-eq_nil : {A : Type 0} (xs ys : List A) → (xs ++ ys ≡ []) ↔ ((xs ≡ []) × (ys ≡ []))
append-eq_nil [] ys = (λ h. (refl, h), λ h. h.1)
append-eq_nil (x ∷ xs) ys = (λ h. cc, λ h. cc)

module _ {A B : Type 0} where
  -- A loop has appended nothing exactly when no round has.
  pub flat_map-eq_nil :
      (f : A → List B) (xs : List A) → (flat_map f xs ≡ []) ↔ All (λ x. f x ≡ []) xs
  flat_map-eq_nil f [] = (λ _. tt, λ _. refl)
  flat_map-eq_nil f (x ∷ xs) = (
    λ h. let (p, q) = (append-eq_nil (f x) (flat_map f xs)).0 h in (p, (flat_map-eq_nil f xs).0 q),
    λ (p, q). (append-eq_nil (f x) (flat_map f xs)).1 (p, (flat_map-eq_nil f xs).1 q),
  )

-- No two rows have one key.
module _ {A B : Type 0} (key : A → B) where
  abbrev pub UniqueBy : List A → Type 0
  UniqueBy [] = Unit
  UniqueBy (x ∷ xs) = All (λ y. key y ≢ key x) xs × UniqueBy xs

  pub unique_of_key :
      (xs : List A) (a b : A) → UniqueBy xs → In a xs → In b xs → key a ≡ key b → a ≡ b
  unique_of_key [] a b u i j e = absurd i
  unique_of_key (x ∷ xs) a b u (inl p) (inl q) e = p ∙ sym q
  unique_of_key (x ∷ xs) a b u (inl p) (inr j) e = absurd (All-In _ b xs u.0 j (sym e ∙ ap key p))
  unique_of_key (x ∷ xs) a b u (inr i) (inl q) e = absurd (All-In _ a xs u.0 i (e ∙ ap key q))
  unique_of_key (x ∷ xs) a b u (inr i) (inr j) e = unique_of_key xs a b u.1 i j e

  pub UniqueBy-append :
      (xs : List A) (a : A) → UniqueBy xs → All (λ y. key y ≢ key a) xs → UniqueBy (xs ++ a ∷ [])
  UniqueBy-append [] a u h = (tt, tt)
  UniqueBy-append (x ∷ xs) a u (n, h) =
      (All-concat (λ y. key y ≢ key x) xs a u.0 (λ e. n (sym e)), UniqueBy-append xs a u.1 h)

-- Where keys are unique, the search by a key finds the row that has it.
module _ {A : Type 0} {B : Type 0} ⦃e : Eq B⦄ (key : A → B) where
  pub find?_unique :
      (xs : List A) (a : A) → UniqueBy key xs → In a xs → find? (λ x. key x == key a) xs ≡ some a
  find?_unique xs a u i = elim (Option-cases (find? (λ x. key x == key a) xs)) [
    | inl none_found ↦ cc (find?-none (λ x. key x == key a) a xs none_found i, ==_refl (key a))
    | inr (b, found) ↦
        let (j, same) = find?-some (λ x. key x == key a) b xs found in
        found ∙ ap some (unique_of_key key xs b a u j i (==→≡ (key b) (key a) same))
  ]

  pub not_any : (k : B) (xs : List A) → any (λ x. key x == k) xs ≡ false → All (λ x. key x ≢ k) xs
  not_any k [] h = tt
  not_any k (x ∷ xs) h = (ground arith, not_any k xs (ground arith))

  pub find?-none-All :
      (k : B) (xs : List A) → find? (λ x. key x == k) xs ≡ none → All (λ x. key x ≢ k) xs
  find?-none-All k [] h = tt
  find?-none-All k (x ∷ xs) h = (ground arith, find?-none-All k xs (ground arith))

pub In-map : {A B : Type 0} (f : A → B) (a : A) (xs : List A) → In a xs → In (f a) (map f xs)
In-map f a [] i = absurd i
In-map f a (x ∷ xs) (inl e) = inl (ap f e)
In-map f a (x ∷ xs) (inr i) = inr (In-map f a xs i)

pub In-map_inv :
    {A B : Type 0} (f : A → B) (b : B) (xs : List A)
    → In b (map f xs)
    → (a : A) × In a xs × (b ≡ f a)
In-map_inv f b [] i = absurd i
In-map_inv f b (x ∷ xs) (inl e) = (x, inl refl, e)
In-map_inv f b (x ∷ xs) (inr i) = let (a, j, e) = In-map_inv f b xs i in (a, inr j, e)

pub any-In :
    {A : Type 0} (p : A → Bool) (xs : List A) → any p xs ≡ true → (a : A) × In a xs × (p a ≡ true)
any-In p [] h = ground arith
any-In p (x ∷ xs) h = elim (Bool-cases (p x)) [
  | inl e ↦ (x, inl refl, e)
  | inr e ↦ let (a, i, f) = any-In p xs (ground arith) in (a, inr i, f)
]

-- A map that tells apart by the new key what the old key tells apart.
pub UniqueBy-map :
    {A B C D : Type 0} (key : A → B) (new_key : D → C) (f : A → D) (xs : List A)
    → ((x y : A) → In x xs → In y xs → new_key (f x) ≡ new_key (f y) → key x ≡ key y)
    → UniqueBy key xs
    → UniqueBy new_key (map f xs)
UniqueBy-map key new_key f [] h u = tt
UniqueBy-map key new_key f (x ∷ xs) h u = (
  All-of _ (map f xs) λ d i e.
      let (y, j, same) = In-map_inv f d xs i in
      All-In _ y xs u.0 j (h y x (inr j) (inl refl) (sym (ap new_key same) ∙ e)),
  UniqueBy-map key new_key f xs (λ y z i j e. h y z (inr i) (inr j) e) u.1,
)

pub any-false :
    {A : Type 0} (p : A → Bool) (a : A) (xs : List A) → any p xs ≡ false → In a xs → p a ≡ false
any-false p a [] h i = absurd i
any-false p a (x ∷ xs) h (inl e) = ground arith
any-false p a (x ∷ xs) h (inr i) = any-false p a xs (ground arith) i

pub map_congruent :
    {A B : Type 0} (f g : A → B) (xs : List A)
    → ((a : A) → In a xs → f a ≡ g a)
    → map f xs ≡ map g xs
map_congruent f g [] h = refl
map_congruent f g (x ∷ xs) h = cc (h x (inl refl), map_congruent f g xs λ a i. h a (inr i))

pub map_fused :
    {A B C : Type 0} (f : A → B) (g : B → C) (xs : List A)
    → map g (map f xs) ≡ map (λ a. g (f a)) xs
map_fused f g [] = refl
map_fused f g (x ∷ xs) = cc (map_fused f g xs)

pub UniqueBy-filter :
    {A B : Type 0} (key : A → B) (p : A → Bool) (xs : List A)
    → UniqueBy key xs
    → UniqueBy key (filter p xs)
UniqueBy-filter key p [] u = tt
UniqueBy-filter key p (x ∷ xs) u = elim (Bool-cases (p x)) [
  | inl e ↦
      rw (e, filter)
        (
          All-of _ (filter p xs) (λ y i. All-In _ y xs u.0 (In-filter p y xs i).0),
          UniqueBy-filter key p xs u.1,
        )
  | inr e ↦ rw (e, filter) (UniqueBy-filter key p xs u.1)
]

pub map_same : {A : Type 0} (xs : List A) → map (λ a. a) xs ≡ xs
map_same [] = refl
map_same (x ∷ xs) = cc (map_same xs)

-- An element that a list does not contain differs from each of its elements.
pub not_contained :
    {A : Type 0} ⦃e : Eq A⦄ (a : A) (xs : List A) → contains xs a ≡ false → All (λ x. x ≢ a) xs
not_contained a [] h = tt
not_contained a (x ∷ xs) h = (
  λ same. cc (any-false (λ y. a == y) x (x ∷ xs) h (inl refl), ap (λ y. a == y) same, ==_refl a),
  not_contained a xs (ground arith),
)
