-- ===== src/Text/Like.antt =====
-- SQL's LIKE, for patterns without the escape character: `%` stands for any text, `_` for any one
-- character, and everything else for itself.
use grid_node_registry.Prelude.{
  ℕ, ◌≡◌, refl, ◌≢◌, Bool, true, false, ◌&&◌, ◌||◌, [], ◌∷◌, ◌++◌, arith, Text, nat_eq, ◌==◌,
  if◌then◌else◌,
}
use grid_node_registry.Text.{starts_with}

-- One of the tails of the text, itself and the empty one included, passes the test.
abbrev any_tail : (Text → Bool) → Text → Bool
any_tail p [] = p []
any_tail p (c ∷ s) = p (c ∷ s) || any_tail p s

abbrev one : ℕ → (Text → Bool) → Text → Bool
one c p [] = false
one c p (d ∷ s) = (c == b'_' || c == d) && p s

unfoldable pub like : Text → Text → Bool
unfolding nat_eq
like [] s = elim s [ [] ↦ true | _ ∷ _ ↦ false ]
like (c ∷ p) s = if c == b'%' then any_tail (like p) s else one c (like p) s

-- No character of the text is a wildcard, or the escape character `\`.
abbrev pub IsPlain : Text → Type 0
IsPlain [] = Unit
IsPlain (c ∷ s) = (c ≢ b'%') × (c ≢ b'_') × (c ≢ 92) × IsPlain s

like_percent : (s : Text) → like (b'%' ∷ []) s ≡ true
unfolding like
like_percent [] = refl
like_percent (c ∷ s) = ground (arith, like_percent s)

-- On a pattern `p%` with no wildcard in `p`, LIKE is `startswith(p)`.
pub like-starts_with : (p s : Text) → IsPlain p → like (p ++ b'%' ∷ []) s ≡ starts_with s p
unfolding starts_with like
like-starts_with [] s h = like_percent s
like-starts_with (c ∷ p) [] h = ground arith
like-starts_with (c ∷ p) (d ∷ s) h = ground (arith, like-starts_with p s h.3)
