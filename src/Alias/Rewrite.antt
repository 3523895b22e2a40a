-- ===== src/Alias/Rewrite.antt =====
-- The prefix rewrite of a re-parent: it moves a subtree as a whole.
use grid_node_registry.Prelude.{
  ◌≡◌, sym, ap, ◌∙◌, ◌⊎◌, inl, inr, true, [], ◌∷◌, ◌++◌, append_assoc, append-nil, arith, Text,
  nat_eq, text_eq, ◌==◌, length, ==→≡, Bool-cases,
}
use grid_node_registry.Text.{dot, starts_with, drop}
use grid_node_registry.Text.Laws.{
  starts_with-append, starts_with-drop, drop-append, rsplit-prepend, rsplit-here,
}
use grid_node_registry.Alias.{
  universe_of, parent_alias, in_subtree, last_word, rewrite_alias, moved_child_new_prefix,
}
use grid_node_registry.Alias.Paths.{
  child_of, universe_of-append, parent_alias-child_of, last_word-child_of, last_word-Lacks,
}

-- `a` is `p`, or a path below it.
abbrev pub Below : Text → Text → Type 0
Below a p = (a ≡ p) ⊎ ((s : Text) × (a ≡ p ++ dot ∷ s))

pub in_subtree-Below : (a p : Text) → in_subtree a p ≡ true → Below a p
unfolding in_subtree
in_subtree-Below a p h = elim (Bool-cases (a == p)) [
  | inl e ↦ inl (==→≡ a p e)
  | inr e ↦
      let t : starts_with a (p ++ dot ∷ []) ≡ true = ground arith in
      inr (
        drop (length (p ++ dot ∷ [])) a,
        starts_with-drop a (p ++ dot ∷ []) t ∙ append_assoc p (dot ∷ []) _,
      )
]

pub Below-in_subtree : (a p : Text) → Below a p → in_subtree a p ≡ true
unfolding in_subtree
Below-in_subtree a p (inl e) = ground arith
Below-in_subtree a p (inr (s, e)) =
    ground (arith, starts_with-append (p ++ dot ∷ []) s, append_assoc p (dot ∷ []) s)

pub rewrite_alias-append : (p q s : Text) → rewrite_alias (p ++ s) p q ≡ q ++ s
unfolding rewrite_alias
rewrite_alias-append p q s = rw drop-append

pub rewrite_alias_self : (p q : Text) → rewrite_alias p p q ≡ q
rewrite_alias_self p q =
    ap (λ t. rewrite_alias t p q) (sym (append-nil p)) ∙ rewrite_alias-append p q [] ∙ append-nil q

-- A rewritten subtree lies under its new prefix.
pub rewrite_alias-Below : (a p q : Text) → Below a p → Below (rewrite_alias a p q) q
rewrite_alias-Below a p q (inl e) = rw e (inl (rewrite_alias_self p q))
rewrite_alias-Below a p q (inr (s, e)) = rw e (inr (s, rewrite_alias-append p q (dot ∷ s)))

-- Moving a subtree there and back changes no alias of it.
pub rewrite_alias_back :
    (a p q : Text) → in_subtree a p ≡ true → rewrite_alias (rewrite_alias a p q) q p ≡ a
rewrite_alias_back a p q h = elim (in_subtree-Below a p h) [
  | inl e ↦ rw (e, rewrite_alias_self p q) (rewrite_alias_self q p)
  | inr (s, e) ↦ rw (e, rewrite_alias-append p q (dot ∷ s)) (rewrite_alias-append q p (dot ∷ s))
]

-- So no two aliases of a subtree are rewritten to one.
pub rewrite_alias_injective :
    (a b p q : Text)
    → in_subtree a p ≡ true
    → in_subtree b p ≡ true
    → rewrite_alias a p q ≡ rewrite_alias b p q
    → a ≡ b
rewrite_alias_injective a b p q ha hb e =
    sym (rewrite_alias_back a p q ha)
    ∙ ap (λ t. rewrite_alias t q p) e
    ∙ rewrite_alias_back b p q hb

-- Strictly below the prefix, the parent of a rewritten alias is the rewritten parent.
pub parent_alias-rewrite_alias :
    (p q s : Text)
    → parent_alias (rewrite_alias (child_of p s) p q)
      ≡ rewrite_alias (parent_alias (child_of p s)) p q
unfolding parent_alias
parent_alias-rewrite_alias p q s =
    let ((l, r), e) = rsplit-here dot s in
    rw
      (
        rewrite_alias-append p q (dot ∷ s),
        rsplit-prepend dot q (dot ∷ s) e,
        rsplit-prepend dot p (dot ∷ s) e,
      )
      (sym (rewrite_alias-append p q l))

pub last_word-rewrite_alias :
    (p q s : Text) → last_word (rewrite_alias (child_of p s) p q) ≡ last_word (child_of p s)
unfolding last_word
last_word-rewrite_alias p q s =
    let ((l, r), e) = rsplit-here dot s in
    rw (
      rewrite_alias-append p q (dot ∷ s),
      rsplit-prepend dot q (dot ∷ s) e,
      rsplit-prepend dot p (dot ∷ s) e,
    )

-- Under the new node N a moved child hangs directly under N, and it keeps its last word.
pub moved_child_under : (n c : Text) → parent_alias (moved_child_new_prefix n c) ≡ n
unfolding moved_child_new_prefix
moved_child_under n c = parent_alias-child_of n (last_word c) (last_word-Lacks c)

pub last_word-moved_child : (n c : Text) → last_word (moved_child_new_prefix n c) ≡ last_word c
unfolding moved_child_new_prefix
last_word-moved_child n c = last_word-child_of n (last_word c) (last_word-Lacks c)

universe_of-moved : (n c : Text) → universe_of (moved_child_new_prefix n c) ≡ universe_of n
unfolding moved_child_new_prefix
universe_of-moved n c = universe_of-append n (last_word c)

-- Every alias of a moved subtree keeps its last word and lives in the universe of the new node.
pub moved_alias :
    (n c a : Text)
    → in_subtree a c ≡ true
    → let b = rewrite_alias a c (moved_child_new_prefix n c) in
      (last_word b ≡ last_word a) × (universe_of b ≡ universe_of n)
moved_alias n c a h = elim (in_subtree-Below a c h) [
  | inl e ↦
      rw (e, rewrite_alias_self c (moved_child_new_prefix n c))
        (last_word-moved_child n c, universe_of-moved n c)
  | inr (s, e) ↦ (
    rw e (last_word-rewrite_alias c _ s),
    rw (e, rewrite_alias-append c (moved_child_new_prefix n c) (dot ∷ s))
        (universe_of-append _ s ∙ universe_of-moved n c),
  )
]
