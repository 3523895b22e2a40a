-- ===== src/Alias/Paths.antt =====
-- Parents, roots and universes of dotted paths.
use grid_node_registry.Prelude.{
  ℕ, suc, ◌≡◌, refl, sym, ap, ◌∙◌, inl, inr, [], ◌∷◌, ◌++◌, arith, Text, nat_eq, text_eq,
  Option-cases,
}
use grid_node_registry.Text.{dot, count, before, rsplit}
use grid_node_registry.Text.Laws.{
  Lacks, rsplit-append, rsplit-some, rsplit-none, count-append, count_of_Lacks, count-rsplit,
}
use grid_node_registry.Alias.{universe_of, parent_alias, last_word}

-- The alias of a child: the parent's alias and one more word.
abbrev pub child_of : Text → Text → Text
child_of p w = p ++ dot ∷ w

pub parent_alias-child_of : (p w : Text) → Lacks dot w → parent_alias (child_of p w) ≡ p
unfolding parent_alias
parent_alias-child_of p w h = rw (rsplit-append dot p w h)

pub last_word-child_of : (p w : Text) → Lacks dot w → last_word (child_of p w) ≡ w
unfolding last_word
last_word-child_of p w h = rw (rsplit-append dot p w h)

pub last_word-Lacks : (a : Text) → Lacks dot (last_word a)
unfolding last_word
last_word-Lacks a = elim (Option-cases (rsplit dot a)) [
  | inl e ↦ rw e (rsplit-none dot a e)
  | inr ((l, r), e) ↦ rw e ((rsplit-some dot a l r e).1)
]

-- An alias with a dot is its parent and its last word.
pub child_of-parent_alias :
    (a : Text) {n : ℕ} → count dot a ≡ suc n → a ≡ child_of (parent_alias a) (last_word a)
unfolding parent_alias last_word
child_of-parent_alias a h = elim (Option-cases (rsplit dot a)) [
  | inl e ↦ ground (arith, count_of_Lacks dot a (rsplit-none dot a e))
  | inr ((l, r), e) ↦ rw e ((rsplit-some dot a l r e).0)
]

-- The parent of an alias has one dot less.
pub count-parent_alias : (a : Text) {n : ℕ} → count dot a ≡ suc n → count dot (parent_alias a) ≡ n
unfolding parent_alias
count-parent_alias a h = elim (Option-cases (rsplit dot a)) [
  | inl e ↦ ground (arith, count_of_Lacks dot a (rsplit-none dot a e))
  | inr ((l, r), e) ↦ rw e (ground (arith, count-rsplit dot a l r e))
]

pub count-child_of : (p w : Text) → Lacks dot w → count dot (child_of p w) ≡ suc (count dot p)
count-child_of p w h = rw count-append (unfold count in ground (arith, count_of_Lacks dot w h))

-- What follows the first dot does not change the universe.
pub universe_of-append : (p s : Text) → universe_of (p ++ dot ∷ s) ≡ universe_of p
unfolding universe_of before
universe_of-append [] s = refl
universe_of-append (d ∷ p) s = ground (arith, universe_of-append p s)

-- A node and its parent live in one universe.
pub universe_of-parent_alias :
    (a : Text) {n : ℕ} → count dot a ≡ suc n → universe_of (parent_alias a) ≡ universe_of a
universe_of-parent_alias a h =
    sym (
      ap universe_of (child_of-parent_alias a h)
      ∙ universe_of-append (parent_alias a) (last_word a))
