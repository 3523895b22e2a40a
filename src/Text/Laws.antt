-- ===== src/Text/Laws.antt =====
-- Laws of prefixes, of the split at the last dot, and of counting.
use grid_node_registry.Prelude.{
  ℕ, suc, ◌+◌, ◌≡◌, refl, ◌≢◌, inl, inr, Bool-cases, ◌==◌, List, true, none, some, [], ◌∷◌, ◌++◌,
  arith, Text, nat_eq, text_eq, length, Option-cases,
}
use grid_node_registry.Text.{starts_with, drop, count, before, rsplit, split}

-- `c` does not occur in the text.
abbrev pub Lacks : ℕ → Text → Type 0
Lacks c [] = Unit
Lacks c (d ∷ s) = (d ≢ c) × Lacks c s

pub starts_with-append : (p s : Text) → starts_with (p ++ s) p ≡ true
unfolding starts_with
starts_with-append [] s = refl
starts_with-append (c ∷ p) s = ground (arith, starts_with-append p s)

-- A text that begins with `p` is `p` and its rest.
pub starts_with-drop : (s p : Text) → starts_with s p ≡ true → s ≡ p ++ drop (length p) s
unfolding starts_with drop
starts_with-drop s [] h = refl
starts_with-drop [] (d ∷ p) h = cc
starts_with-drop (c ∷ s) (d ∷ p) h = ground (arith, starts_with-drop s p)

pub drop-append : (p s : Text) → drop (length p) (p ++ s) ≡ s
unfolding drop
drop-append [] s = refl
drop-append (c ∷ p) s = drop-append p s

pub rsplit_of_Lacks : (c : ℕ) (s : Text) → Lacks c s → rsplit c s ≡ none
unfolding rsplit
rsplit_of_Lacks c [] h = refl
rsplit_of_Lacks c (d ∷ s) h = rw (rsplit_of_Lacks c s h.1) (ground arith)

-- The split at the last occurrence, when the tail has none.
pub rsplit-append : (c : ℕ) (l r : Text) → Lacks c r → rsplit c (l ++ c ∷ r) ≡ some (l, r)
unfolding rsplit
rsplit-append c [] r h = rw (rsplit_of_Lacks c r h) (ground arith)
rsplit-append c (d ∷ l) r h = rw (rsplit-append c l r h)

pub rsplit-none : (c : ℕ) (s : Text) → rsplit c s ≡ none → Lacks c s
unfolding rsplit
rsplit-none c [] h = tt
rsplit-none c (d ∷ s) h = elim (Option-cases (rsplit c s)) [
  | inl e ↦ (ground arith, rsplit-none c s e)
  | inr (lr, e) ↦ ground arith
]

pub rsplit-some : (c : ℕ) (s l r : Text) → rsplit c s ≡ some (l, r) → (s ≡ l ++ c ∷ r) × Lacks c r
unfolding rsplit
rsplit-some c [] l r h = cc
rsplit-some c (d ∷ s) l r h = elim (Option-cases (rsplit c s)) [
  | inl e ↦ ground (arith, rsplit-none c s e)
  | inr ((l', r'), e) ↦ ground (arith, rsplit-some c s l' r' e)
]

pub before-append : (c : ℕ) (l r : Text) → Lacks c l → before c (l ++ c ∷ r) ≡ l
unfolding before
before-append c [] r h = ground arith
before-append c (d ∷ l) r h = ground (arith, before-append c l r h.1)

pub before_of_Lacks : (c : ℕ) (s : Text) → Lacks c s → before c s ≡ s
unfolding before
before_of_Lacks c [] h = refl
before_of_Lacks c (d ∷ s) h = ground (arith, before_of_Lacks c s h.1)

pub count_of_Lacks : (c : ℕ) (s : Text) → Lacks c s → count c s ≡ 0
unfolding count
count_of_Lacks c [] h = refl
count_of_Lacks c (d ∷ s) h = ground (arith, count_of_Lacks c s h.1)

pub count-append : (c : ℕ) (l r : Text) → count c (l ++ r) ≡ count c l + count c r
unfolding count
count-append c [] r = omega arith
count-append c (d ∷ l) r = ground (arith, count-append c l r)

-- A split at the last occurrence takes one occurrence away.
pub count-rsplit : (c : ℕ) (s l r : Text) → rsplit c s ≡ some (l, r) → count c s ≡ suc (count c l)
count-rsplit c s l r h =
    let (e, k) = rsplit-some c s l r h in
    rw (e, count-append) (unfold count in ground (arith, count_of_Lacks c r k))

-- The parts of a split at every occurrence are one more than the occurrences.
pub length-split : (c : ℕ) (s : Text) → length (split c s) ≡ suc (count c s)
unfolding split count
length-split c [] = refl
length-split c (d ∷ s) = ground (arith, length-split c s)

-- A text in front does not change the last occurrence.
pub rsplit-prepend :
    (c : ℕ) (p s : Text) {l r : Text}
    → rsplit c s ≡ some (l, r)
    → rsplit c (p ++ s) ≡ some (p ++ l, r)
unfolding rsplit
rsplit-prepend c [] s h = h
rsplit-prepend c (d ∷ p) s h = rw (rsplit-prepend c p s h)

pub rsplit-here : (c : ℕ) (s : Text) → (lr : Text × Text) × (rsplit c (c ∷ s) ≡ some lr)
unfolding rsplit
rsplit-here c s = elim (Option-cases (rsplit c s)) [
  | inl e ↦ (([], s), rw e (ground arith))
  | inr ((l, r), e) ↦ ((c ∷ l, r), rw e)
]

pub split-append : (c : ℕ) (l r : Text) → Lacks c l → split c (l ++ c ∷ r) ≡ l ∷ split c r
unfolding split
split-append c [] r h = ground arith
split-append c (d ∷ l) r h = ground (arith, split-append c l r h.1)

pub split_of_Lacks : (c : ℕ) (s : Text) → Lacks c s → split c s ≡ s ∷ []
unfolding split
split_of_Lacks c [] h = refl
split_of_Lacks c (d ∷ s) h = ground (arith, split_of_Lacks c s h.1)

split-cons : (c : ℕ) (s : Text) → (w : Text) × (ws : List Text) × (split c s ≡ w ∷ ws)
unfolding split
split-cons c [] = ([], [], refl)
split-cons c (d ∷ s) =
    let (w, ws, e) = split-cons c s in
    elim (Bool-cases (d == c)) [
      | inl p ↦ ([], split c s, rw p refl)
      | inr p ↦ (d ∷ w, ws, rw (p, e) refl)
    ]

pub split-joined : (c : ℕ) (l r : Text) → split c (l ++ c ∷ r) ≡ split c l ++ split c r
unfolding split
split-joined c [] r = ground arith
split-joined c (d ∷ l) r =
    let (w, ws, e) = split-cons c l in
    elim (Bool-cases (d == c)) [
      | inl p ↦ rw (p, split-joined c l r) refl
      | inr p ↦ rw (p, split-joined c l r, e) refl
    ]
