-- ===== src/Sema/Regex.antt =====
-- The regular expressions of src/gnr/sema/property_format.py and their `fullmatch`, by derivatives.
use grid_node_registry.Prelude.{
  ℕ, ◌≡◌, refl, Bool, true, false, ◌&&◌, ◌||◌, [], ◌∷◌, arith, Text, All, ◌⊎◌, inl, inr, Bool-cases,
  if◌then◌else◌,
}

pub data Regex : Type 0 where
  nothing : Regex
  empty : Regex
  set : (ℕ → Bool) → Regex
  seq : Regex → Regex → Regex
  alt : Regex → Regex → Regex
  star : Regex → Regex

unfoldable pub nullable : Regex → Bool
nullable nothing = false
nullable empty = true
nullable (set f) = false
nullable (seq r s) = nullable r && nullable s
nullable (alt r s) = nullable r || nullable s
nullable (star r) = true

-- What is left to match after the character.
unfoldable pub deriv : ℕ → Regex → Regex
unfolding nullable
deriv c nothing = nothing
deriv c empty = nothing
deriv c (set f) = if f c then empty else nothing
deriv c (seq r s) =
    let rest = deriv c s in if nullable r then alt (seq (deriv c r) s) rest else seq (deriv c r) s
deriv c (alt r s) = alt (deriv c r) (deriv c s)
deriv c (star r) = seq (deriv c r) (star r)

unfoldable pub fullmatch : Regex → Text → Bool
unfolding deriv
fullmatch r [] = nullable r
fullmatch r (c ∷ s) = fullmatch (deriv c r) s

-- Every character that a set of the expression takes has the property.
abbrev pub Within : (ℕ → Type 0) → Regex → Type 0
Within P nothing = Unit
Within P empty = Unit
Within P (set f) = (c : ℕ) → f c ≡ true → P c
Within P (seq r s) = Within P r × Within P s
Within P (alt r s) = Within P r × Within P s
Within P (star r) = Within P r

deriv-Within : (P : ℕ → Type 0) (c : ℕ) (r : Regex) → Within P r → Within P (deriv c r)
unfolding deriv
deriv-Within P c nothing h = tt
deriv-Within P c empty h = tt
deriv-Within P c (set f) h = ground arith
deriv-Within P c (seq r s) h = ground (arith, deriv-Within P c r h.0, deriv-Within P c s h.1)
deriv-Within P c (alt r s) h = (deriv-Within P c r h.0, deriv-Within P c s h.1)
deriv-Within P c (star r) h = (deriv-Within P c r h, h)

-- The expression is seen to match nothing.
abbrev IsDead : Regex → Type 0
IsDead nothing = Unit
IsDead (seq r s) = IsDead r
IsDead (alt r s) = IsDead r × IsDead s
IsDead _ = ⊥

nullable-IsDead : (r : Regex) → IsDead r → nullable r ≡ false
unfolding nullable
nullable-IsDead nothing h = refl
nullable-IsDead empty h = absurd h
nullable-IsDead (set f) h = absurd h
nullable-IsDead (seq r s) h = ground (arith, nullable-IsDead r h)
nullable-IsDead (alt r s) h = ground (arith, nullable-IsDead r h.0, nullable-IsDead s h.1)
nullable-IsDead (star r) h = absurd h

deriv-IsDead : (c : ℕ) (r : Regex) → IsDead r → IsDead (deriv c r)
unfolding deriv
deriv-IsDead c nothing h = tt
deriv-IsDead c empty h = absurd h
deriv-IsDead c (set f) h = absurd h
deriv-IsDead c (seq r s) h = ground (arith, nullable-IsDead r h, deriv-IsDead c r h)
deriv-IsDead c (alt r s) h = (deriv-IsDead c r h.0, deriv-IsDead c s h.1)
deriv-IsDead c (star r) h = absurd h

pub fullmatch-IsDead : (r : Regex) (s : Text) → IsDead r → fullmatch r s ≡ false
unfolding fullmatch
fullmatch-IsDead r [] h = nullable-IsDead r h
fullmatch-IsDead r (c ∷ s) h = fullmatch-IsDead (deriv c r) s (deriv-IsDead c r h)

deriv_step : (P : ℕ → Type 0) (c : ℕ) (r : Regex) → Within P r → P c ⊎ IsDead (deriv c r)
unfolding deriv
deriv_step P c nothing h = inr tt
deriv_step P c empty h = inr tt
deriv_step P c (set f) h = elim (Bool-cases (f c)) [ inl t ↦ inl (h c t) | inr n ↦ rw n (inr tt) ]
deriv_step P c (seq r s) h = ground (arith, deriv_step P c r h.0, deriv_step P c s h.1)
deriv_step P c (alt r s) h = ground (arith, deriv_step P c r h.0, deriv_step P c s h.1)
deriv_step P c (star r) h = deriv_step P c r h

-- Every character of a text that matches is taken by a set of the expression.
pub fullmatch-Within :
    (P : ℕ → Type 0) (r : Regex) (s : Text) → Within P r → fullmatch r s ≡ true → All P s
unfolding fullmatch
fullmatch-Within P r [] h m = tt
fullmatch-Within P r (c ∷ s) h m = elim (deriv_step P c r h) [
  | inl p ↦ (p, fullmatch-Within P (deriv c r) s (deriv-Within P c r h) m)
  | inr d ↦ cc (fullmatch-IsDead (deriv c r) s d)
]
