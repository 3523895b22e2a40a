-- ===== src/Authority/Subtree.antt =====
-- The subtree filter of `_rewrite_prefix` and `get_forest` (`alias == p OR alias LIKE p || '.%'`)
-- against `in_subtree`.
use grid_node_registry.Prelude.{
  ◌≡◌, ap, ◌∙◌, sym, true, ◌||◌, [], ◌∷◌, ◌++◌, append_assoc, Text, codes, text_eq, ◌==◌, arith,
}
use grid_node_registry.Text.{dot, starts_with}
use grid_node_registry.Text.Like.{like, like-starts_with, IsPlain}
use grid_node_registry.Alias.{in_subtree}
use grid_node_registry.Sema.Format.{is_left_right_dot, is_left_right_dot-IsPlain}
use grid_node_registry.Authority.{in_subtree_sql}

IsPlain-dot : (root : Text) → IsPlain root → IsPlain (root ++ dot ∷ [])
IsPlain-dot [] h = (ground arith, ground arith, ground arith, tt)
IsPlain-dot (c ∷ root) h = (h.0, h.1, h.2, IsPlain-dot root h.3)

like_under :
    (root alias : Text)
    → IsPlain root
    → like (root ++ codes ".%") alias ≡ starts_with alias (root ++ dot ∷ [])
like_under root alias h =
    ap (λ p. like p alias) (sym (append_assoc root (dot ∷ []) (b'%' ∷ [])))
    ∙ like-starts_with (root ++ dot ∷ []) alias (IsPlain-dot root h)

-- For a root of the LeftRightDot format, the SQL filter with LIKE and `in_subtree` agree on every alias.
pub in_subtree_sql_agrees :
    (root alias : Text)
    → is_left_right_dot root ≡ true
    → in_subtree_sql root alias ≡ in_subtree alias root
unfolding in_subtree_sql in_subtree
in_subtree_sql_agrees root alias h =
    ap (λ b. alias == root || b) (like_under root alias (is_left_right_dot-IsPlain root h))
