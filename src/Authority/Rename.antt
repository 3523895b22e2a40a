-- ===== src/Authority/Rename.antt =====
-- The rename of one row (`node.alias = new_alias` in `_rewrite_prefix` of src/gnr/db/authority.py)
-- and the invariant of the tables, up to the claim that follows it.
use grid_node_registry.Prelude.{
  ◌≡◌, sym, ap, ◌∙◌, ◌⊎◌, inl, inr, true, false, not, ◌&&◌, map, arith, subst, Text, text_eq, ◌==◌,
  ==→≡, Bool-cases, In, In-map, In-map_inv, UniqueBy-map, unique_of_key, any, any-false,
}
use grid_node_registry.Registry.Models.{Tables, GNodeSql}
use grid_node_registry.Registry.Keeps.{Keeps, Keeps-modify, Keeps-after_guard}
use grid_node_registry.Registry.Consistency.{IsConsistent, AwaitsClaim, Owns}
use grid_node_registry.Authority.Reparent.{rename, rename_row, renamed}

pub id-rename_row : (id alias : Text) (n : GNodeSql) → (rename_row id alias n).id ≡ n.id
unfolding rename_row
id-rename_row id alias n = ground arith

alias_of_renamed :
    (id alias : Text) (n : GNodeSql) → (n.id == id) ≡ true → (rename_row id alias n).alias ≡ alias
unfolding rename_row
alias_of_renamed id alias n e = ground arith

alias_of_other :
    (id alias : Text) (n : GNodeSql)
    → (n.id == id) ≡ false
    → (rename_row id alias n).alias ≡ n.alias
unfolding rename_row
alias_of_other id alias n e = ground arith

pub rename_row_self :
    (id alias : Text) (n : GNodeSql) → (n.id == id) ≡ true → rename_row id alias n ≡ renamed alias n
unfolding rename_row
rename_row_self id alias n e = ground arith

pub rename_row_other :
    (id alias : Text) (n : GNodeSql) → (n.id == id) ≡ false → rename_row id alias n ≡ n
unfolding rename_row
rename_row_other id alias n e = ground arith

module _ (id alias : Text) (t : Tables) (h : IsConsistent t)
    (free : any (λ (n : GNodeSql). not (n.id == id) && n.alias == alias) t.g_nodes ≡ false) where
  -- Another row does not have the new alias.
  not_taken : (n : GNodeSql) → In n t.g_nodes → n.alias ≡ alias → n.id ≡ id
  not_taken n i e =
      let no_row = any-false (λ n. not (n.id == id) && n.alias == alias) n t.g_nodes free i in
      ground arith

  same_id :
      (x y : GNodeSql)
      → In x t.g_nodes
      → In y t.g_nodes
      → (rename_row id alias x).alias ≡ (rename_row id alias y).alias
      → x.id ≡ y.id
  same_id x y i j e = elim (Bool-cases (x.id == id)) [
    | inl p ↦ elim (Bool-cases (y.id == id)) [
      | inl q ↦ ==→≡ _ _ p ∙ sym (==→≡ _ _ q)
      | inr q ↦
          ==→≡ _ _ p
          ∙ sym (
              not_taken y j
                (sym (alias_of_other id alias y q) ∙ sym e ∙ alias_of_renamed id alias x p))
    ]
    | inr p ↦ elim (Bool-cases (y.id == id)) [
      | inl q ↦
          not_taken x i (sym (alias_of_other id alias x p) ∙ e ∙ alias_of_renamed id alias y q)
          ∙ sym (==→≡ _ _ q)
      | inr q ↦
          ap (λ n. n.id)
            (unique_of_key (λ n. n.alias) t.g_nodes x y h.keyed.aliases i j
              (sym (alias_of_other id alias x p) ∙ e ∙ alias_of_other id alias y q))
    ]
  ]

  rename_rows : AwaitsClaim alias id (record t { g_nodes = map (rename_row id alias) t.g_nodes })
  rename_rows = record {
    keyed = record {
      ids =
          UniqueBy-map (λ n. n.id) (λ n. n.id) (rename_row id alias) t.g_nodes
            (λ x y i j e. sym (id-rename_row id alias x) ∙ e ∙ id-rename_row id alias y)
            h.keyed.ids;
      aliases =
          UniqueBy-map (λ n. n.id) (λ n. n.alias) (rename_row id alias) t.g_nodes same_id
            h.keyed.ids;
      claims = h.keyed.claims;
      commands = h.keyed.commands;
      owners = λ c i.
          let (n, j, e) = h.keyed.owners c i in
          (
            rename_row id alias n,
            In-map (rename_row id alias) n t.g_nodes j,
            id-rename_row id alias n ∙ e,
          );
    };
    owned = λ m i.
        let (n, j, e) = In-map_inv (rename_row id alias) m t.g_nodes i in owned_after m n j e;
  }
    where
      owned_after :
          (m n : GNodeSql)
          → In n t.g_nodes
          → m ≡ rename_row id alias n
          → ((m.alias ≡ alias) × (m.id ≡ id)) ⊎ Owns t m
      owned_after m n j e = elim (Bool-cases (n.id == id)) [
        | inl p ↦ inl (
          ap (λ k. k.alias) e ∙ alias_of_renamed id alias n p,
          ap (λ k. k.id) e ∙ id-rename_row id alias n ∙ ==→≡ _ _ p,
        )
        | inr p ↦ inr (subst (Owns t) (sym (e ∙ rename_row_other id alias n p)) (h.owned n j))
      ]

pub Keeps-rename : (id alias : Text) → Keeps IsConsistent (AwaitsClaim alias id) (rename id alias)
unfolding rename
Keeps-rename id alias =
    Keeps-after_guard _ _ _ (Keeps-modify _ λ t (h, free). rename_rows id alias t h free)
