-- ===== src/Settings.antt =====
-- src/gnr/settings.py: the check of the universe that an instance serves, for ASCII text. The other
-- settings are read by a library and have no rule of their own.
use grid_node_registry.Prelude.{
  ℕ, ◌≡◌, ◌↔◌, ◌⊎◌, refl, arith, Bool, true, false, not, ◌&&◌, ◌||◌, Option, none, some, [], ◌∷◌,
  Text, codes, text_eq, nat_eq, ◌==◌, any, all, contains, if◌then◌else◌,
}
use grid_node_registry.Sema.Format.{is_lower, is_word}
use grid_node_registry.Sema.Casing.{is_upper}

-- The three messages of the ValueError.
pub data UniverseError : Type 0 where
  not_a_word : UniverseError
  unknown_kind : UniverseError
  production_stubs : UniverseError

-- v.isalnum()
unfoldable pub is_alnum : Text → Bool
is_alnum [] = false
is_alnum (c ∷ s) = all (λ d. is_upper d || is_word d) (c ∷ s)

-- v.islower(): a letter, and no capital
abbrev pub has_lower_case : Text → Bool
has_lower_case v = any is_lower v && all (λ c. not (is_upper c)) v

unfoldable pub check_kind : ℕ → Option UniverseError
unfolding nat_eq
check_kind c =
    if not (contains (codes "dhw") c)
    then some unknown_kind
    else (if c == b'w' then some production_stubs else none)

-- `_check_universe`, `none` where it returns the universe
unfoldable pub check_universe : Text → Option UniverseError
unfolding is_alnum check_kind
check_universe [] = some not_a_word
check_universe (c ∷ s) =
    if not (is_alnum (c ∷ s) && has_lower_case (c ∷ s) && (is_upper c || is_lower c))
    then some not_a_word
    else check_kind c

all_words :
    (s : Text)
    → (all (λ d. is_upper d || is_word d) s && all (λ c. not (is_upper c)) s) ≡ all is_word s
all_words [] = refl
all_words (c ∷ s) = ground (arith, all_words s)

-- A universe is accepted exactly when it is `d` or `h` and then lower-case letters and digits.
pub check_universe_iff :
    (c : ℕ) (s : Text)
    → (check_universe (c ∷ s) ≡ none) ↔ (((c ≡ b'd') ⊎ (c ≡ b'h')) × (all is_word s ≡ true))
unfolding check_universe check_kind nat_eq
check_universe_iff c s = (λ h. ground (arith, all_words s), λ (k, w). ground (arith, all_words s))
