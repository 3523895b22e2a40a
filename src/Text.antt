-- ===== src/Text.antt =====
-- The operations of Python's `str` that the registry uses on aliases, over code points, and the
-- SQL pattern match of its subtree queries.
pub mod Laws
pub mod Like
use grid_node_registry.Prelude.{
  ℕ, zero, suc, ◌+◌, Bool, true, false, ◌&&◌, ◌||◌, Option, none, some, List, [], ◌∷◌, ◌++◌, Text,
  nat_eq, text_eq, ◌==◌, if◌then◌else◌,
}

abbrev pub dot : ℕ
dot = b'.'

-- s.startswith(p)
unfoldable pub starts_with : Text → Text → Bool
unfolding nat_eq
starts_with s [] = true
starts_with [] (_ ∷ _) = false
starts_with (c ∷ s) (d ∷ p) = c == d && starts_with s p

-- s.endswith(p)
unfoldable pub ends_with : Text → Text → Bool
unfolding text_eq
ends_with [] p = [] == p
ends_with (c ∷ s) p = (c ∷ s) == p || ends_with s p

-- s[n:]
unfoldable pub drop : ℕ → Text → Text
drop zero s = s
drop (suc n) [] = []
drop (suc n) (_ ∷ s) = drop n s

-- s.count(c), for one character
unfoldable pub count : ℕ → Text → ℕ
unfolding nat_eq
count c [] = 0
count c (d ∷ s) = if d == c then suc (count c s) else count c s

-- s.split(c, 1)[0]
unfoldable pub before : ℕ → Text → Text
unfolding nat_eq
before c [] = []
before c (d ∷ s) = if d == c then [] else d ∷ before c s

-- s.rsplit(c, 1), `none` where `c` does not occur
abbrev split_step : ℕ → ℕ → Text → Option (Text × Text) → Option (Text × Text)
split_step c d s none = if d == c then some ([], s) else none
split_step c d s (some (l, r)) = some (d ∷ l, r)

unfoldable pub rsplit : ℕ → Text → Option (Text × Text)
unfolding nat_eq
rsplit c [] = none
rsplit c (d ∷ s) = split_step c d s (rsplit c s)

-- s.split(c)
abbrev cons_head : ℕ → List Text → List Text
cons_head d [] = (d ∷ []) ∷ []
cons_head d (w ∷ ws) = (d ∷ w) ∷ ws

unfoldable pub split : ℕ → Text → List Text
unfolding nat_eq
split c [] = [] ∷ []
split c (d ∷ s) = if d == c then [] ∷ split c s else cons_head d (split c s)

-- s[:n]
unfoldable pub take : ℕ → Text → Text
take zero s = []
take (suc n) [] = []
take (suc n) (c ∷ s) = c ∷ take n s
