-- ===== src/Registry/Consistency.antt =====
-- The invariant of the tables between transactions, and the writes of src/gnr/db/alias_ledger.py
-- and of the session that keep it: each node owns its alias in the ledger.
use grid_node_registry.Prelude.{
  ◌≡◌, refl, sym, ap, ◌∙◌, ◌⊎◌, inl, inr, true, false, Option, none, some, [], ◌∷◌, ◌++◌, arith,
  subst, Bool-cases, Text, text_eq, ◌==◌, any-In, ==→≡, In, In-append, In-append_left,
  In-append_right, UniqueBy, UniqueBy-append, not_any, find?-none-All, find?-some, any,
}
use grid_node_registry.Registry.Models.{Tables, GNodeSql, AliasAssignmentSql, CommandLogSql}
use grid_node_registry.Registry.Session.{
  pure, raise, gets, raise_if, ◌>>=◌, ◌>>◌, get_claim, add_node, add_command,
}
use grid_node_registry.Registry.Ledger.{claim_alias, insert_claim, check_owner}
use grid_node_registry.Registry.Keeps.{
  After, Keeps, Keeps-pure, Keeps-raise, Keeps-gets, Keeps-modify, Keeps-raise_if, Keeps-bind,
  Keeps-After-gets, Keeps-after_guard,
}

abbrev pub claim_of : Text → Text → AliasAssignmentSql
claim_of alias id = record { alias = alias; g_node_id = id }

-- The unique columns, and the foreign key of the ledger.
pub record IsKeyed (t : Tables) : Type 0 where
  pub ids : UniqueBy (λ (n : GNodeSql). n.id) t.g_nodes
  pub aliases : UniqueBy (λ (n : GNodeSql). n.alias) t.g_nodes
  pub claims : UniqueBy (λ (c : AliasAssignmentSql). c.alias) t.alias_assignment
  pub commands : UniqueBy (λ (c : CommandLogSql). c.command_hash) t.command_log
  pub owners :
      (c : AliasAssignmentSql)
      → In c t.alias_assignment
      → (n : GNodeSql) × In n t.g_nodes × (n.id ≡ c.g_node_id)

abbrev pub Owns : Tables → GNodeSql → Type 0
Owns t n = In (claim_of n.alias n.id) t.alias_assignment

pub record IsConsistent (t : Tables) : Type 0 where
  pub keyed : IsKeyed t
  pub owned : (n : GNodeSql) → In n t.g_nodes → Owns t n

-- Between the write of a node and its claim, this node alone may not own its alias.
pub record AwaitsClaim (alias id : Text) (t : Tables) : Type 0 where
  pub keyed : IsKeyed t
  pub owned : (n : GNodeSql) → In n t.g_nodes → ((n.alias ≡ alias) × (n.id ≡ id)) ⊎ Owns t n

add_row :
    (row : GNodeSql) (t : Tables)
    → IsConsistent t
    → any (λ (n : GNodeSql). n.id == row.id) t.g_nodes ≡ false
    → any (λ (n : GNodeSql). n.alias == row.alias) t.g_nodes ≡ false
    → AwaitsClaim row.alias row.id (record t { g_nodes = t.g_nodes ++ row ∷ [] })
add_row row t h fresh_id fresh_alias = record {
  keyed = record {
    ids =
        UniqueBy-append (λ n. n.id) t.g_nodes row h.keyed.ids
          (not_any (λ n. n.id) row.id _ fresh_id);
    aliases =
        UniqueBy-append (λ n. n.alias) t.g_nodes row h.keyed.aliases
          (not_any (λ n. n.alias) row.alias _ fresh_alias);
    claims = h.keyed.claims;
    commands = h.keyed.commands;
    owners = λ c i. let (n, j, e) = h.keyed.owners c i in (n, In-append_left n t.g_nodes _ j, e);
  };
  owned = λ n i. elim (In-append n t.g_nodes (row ∷ []) i) [
    | inl j ↦ inr (h.owned n j)
    | inr j ↦ elim j [ inl e ↦ inl (ap (λ m. m.alias) e, ap (λ m. m.id) e) | inr k ↦ absurd k ]
  ];
}

pub Keeps-add_node :
    (row : GNodeSql) → Keeps IsConsistent (AwaitsClaim row.alias row.id) (add_node row)
unfolding add_node
Keeps-add_node row = Keeps-after_guard _ _ _ (
    Keeps-after_guard _ _ _
      (Keeps-after_guard _ _ _ (Keeps-modify _ λ t (((h, i), a), p). add_row row t h i a)))

pub add_log :
    (row : CommandLogSql) (t : Tables)
    → IsConsistent t
    → any (λ (c : CommandLogSql). c.command_hash == row.command_hash) t.command_log ≡ false
    → IsConsistent (record t { command_log = t.command_log ++ row ∷ [] })
add_log row t h fresh = record {
  keyed = record {
    ids = h.keyed.ids;
    aliases = h.keyed.aliases;
    claims = h.keyed.claims;
    commands =
        UniqueBy-append (λ c. c.command_hash) t.command_log row h.keyed.commands
          (not_any (λ c. c.command_hash) _ _ fresh);
    owners = h.keyed.owners;
  };
  owned = h.owned;
}

pub Keeps-add_command : (row : CommandLogSql) → Keeps IsConsistent IsConsistent (add_command row)
unfolding add_command
Keeps-add_command row = Keeps-after_guard _ _ _ (Keeps-modify _ λ t (h, f). add_log row t h f)

-- ---- the ledger

module _ (alias id : Text) (t : Tables) (h : AwaitsClaim alias id t) where
  add_claim :
      get_claim alias t ≡ none
      → any (λ (n : GNodeSql). n.id == id) t.g_nodes ≡ true
      → IsConsistent (record t { alias_assignment = t.alias_assignment ++ claim_of alias id ∷ [] })
  unfolding get_claim
  add_claim free known = record {
    keyed = record {
      ids = h.keyed.ids;
      aliases = h.keyed.aliases;
      claims =
          UniqueBy-append (λ c. c.alias) t.alias_assignment (claim_of alias id) h.keyed.claims
            (find?-none-All (λ c. c.alias) alias _ free);
      commands = h.keyed.commands;
      owners = λ c i. elim (In-append c t.alias_assignment _ i) [
        | inl j ↦ h.keyed.owners c j
        | inr (inl e) ↦
            let (n, j, same) = any-In (λ n. n.id == id) t.g_nodes known in
            (n, j, ==→≡ _ _ same ∙ sym (ap (λ c. c.g_node_id) e))
        | inr (inr k) ↦ absurd k
      ];
    };
    owned = λ n i. elim (h.owned n i) [
      | inl (e, f) ↦ In-append_right _ t.alias_assignment _ (inl (cc (e, f)))
      | inr j ↦ In-append_left _ t.alias_assignment _ j
    ];
  }

  settled_claim :
      (c : AliasAssignmentSql)
      → get_claim alias t ≡ some c
      → (c.g_node_id == id) ≡ true
      → IsConsistent t
  unfolding get_claim
  settled_claim c found mine = record {
    keyed = h.keyed;
    owned = λ n i. elim (h.owned n i) [
      | inl (e, f) ↦
          let (j, same) = find?-some (λ c. c.alias == alias) c t.alias_assignment found in
          subst (λ x. In x t.alias_assignment)
            (claim_eq c n (==→≡ _ _ same ∙ sym e) (==→≡ _ _ mine ∙ sym f)) j
      | inr j ↦ j
    ];
  }
    where
      claim_eq :
          (c : AliasAssignmentSql) (n : GNodeSql)
          → c.alias ≡ n.alias
          → c.g_node_id ≡ n.id
          → c ≡ claim_of n.alias n.id
      claim_eq c n e f = λ i. record { alias = e i; g_node_id = f i }

Keeps-check_owner :
    (alias id : Text) (o : Option AliasAssignmentSql)
    → Keeps IsConsistent IsConsistent (check_owner alias id o)
unfolding check_owner
Keeps-check_owner alias id none = Keeps-raise _
Keeps-check_owner alias id (some c) = Keeps-raise_if _ _

-- No row was inserted, so the owner that is read is the owner that was there.
check_found :
    (alias id : Text) (t : Tables) (o : Option AliasAssignmentSql)
    → AwaitsClaim alias id t
    → get_claim alias t ≡ o
    → After IsConsistent (check_owner alias id o t)
unfolding check_owner raise_if raise pure
check_found alias id t none h e = tt
check_found alias id t (some c) h e = elim (Bool-cases (c.g_node_id == id)) [
  | inl same ↦ rw same (settled_claim alias id t h c e same)
  | inr other ↦ rw other tt
]

abbrev Awaits : Text → Text → Option AliasAssignmentSql → Tables → Type 0
Awaits alias id o t = AwaitsClaim alias id t × (get_claim alias t ≡ o)

inserts_claim :
    (alias id : Text) → Keeps (Awaits alias id none) IsConsistent (insert_claim alias id none)
unfolding insert_claim
inserts_claim alias id =
    Keeps-after_guard _ _ _
      (Keeps-modify _ λ t ((h, e), p). add_claim alias id t h e (ground arith))

after_insert :
    (alias id : Text) (o : Option AliasAssignmentSql)
    → Keeps
        (Awaits alias id o)
        IsConsistent
        (do insert_claim alias id o; check_owner alias id (← gets (get_claim alias)))
unfolding insert_claim
after_insert alias id none =
    Keeps-bind _ _ (inserts_claim alias id)
      λ _. Keeps-bind _ _ (Keeps-gets _) (Keeps-check_owner alias id)
after_insert alias id (some c) =
    Keeps-bind _ _ (Keeps-pure tt)
      λ _. Keeps-After-gets _ _ λ t (h, e). check_found alias id t _ h refl

pub Keeps-claim_alias :
    (alias id : Text) → Keeps (AwaitsClaim alias id) IsConsistent (claim_alias alias id)
unfolding claim_alias
Keeps-claim_alias alias id = Keeps-After-gets _ _ λ t h. (after_insert alias id _).at t (h, refl)
