-- ===== src/Alias.antt =====
-- The alias functions of src/gnr/db/validate.py (lines 52-70) and the pure alias-rewrite logic of
-- src/gnr/db/authority.py (lines 71-102). An alias is a dotted path of words; its first word is the
-- universe.
pub mod Paths
pub mod Rewrite
use grid_node_registry.Prelude.{
  ℕ, Bool, true, false, ◌||◌, Option, none, some, List, [], ◌∷◌, ◌++◌, Text, nat_eq, text_eq, ◌==◌,
  length, if◌then◌else◌,
}
use grid_node_registry.Text.{dot, starts_with, drop, count, before, rsplit}

-- alias.split(".", 1)[0]
unfoldable pub universe_of : Text → Text
universe_of alias = before dot alias

abbrev first_or : Text → Option (Text × Text) → Text
first_or s none = s
first_or s (some (l, _)) = l

abbrev last_or : Text → Option (Text × Text) → Text
last_or s none = s
last_or s (some (_, r)) = r

-- alias.rsplit(".", 1)[0]
unfoldable pub parent_alias : Text → Text
parent_alias alias = first_or alias (rsplit dot alias)

-- alias.count(".") == 1
unfoldable pub is_forest_root : Text → Bool
is_forest_root alias = count dot alias == 1

unfoldable pub in_subtree : Text → Text → Bool
in_subtree alias prefix = alias == prefix || starts_with alias (prefix ++ dot ∷ [])

-- new_prefix + alias[len(old_prefix):]
unfoldable pub rewrite_alias : Text → Text → Text → Text
rewrite_alias alias old_prefix new_prefix = new_prefix ++ drop (length old_prefix) alias

-- alias.rsplit(".", 1)[-1]
unfoldable pub last_word : Text → Text
last_word alias = last_or alias (rsplit dot alias)

unfoldable pub moved_child_new_prefix : Text → Text → Text
moved_child_new_prefix new_node_alias child_alias = new_node_alias ++ dot ∷ last_word child_alias

-- The comprehension, in the order of `aliases`. Its keys are the aliases themselves, so a repeated
-- alias gives the same entry again.
unfoldable pub subtree_rewrite_map : List Text → Text → Text → List (Text × Text)
unfolding in_subtree rewrite_alias
subtree_rewrite_map [] old_prefix new_prefix = []
subtree_rewrite_map (a ∷ aliases) old_prefix new_prefix =
    let rest = subtree_rewrite_map aliases old_prefix new_prefix in
    if in_subtree a old_prefix then (a, rewrite_alias a old_prefix new_prefix) ∷ rest else rest
