-- ===== src/Registry/Inserts.antt =====
-- Inserts that go in (src/gnr/db): a row whose keys no other row has, and a claim of a free alias.
use grid_node_registry.Prelude.{
  ◌≡◌, ◌≢◌, refl, sym, arith, inl, true, false, none, some, List, [], ◌∷◌, ◌++◌, Text, text_eq,
  ◌==◌, ==_refl, any, find?, find?_unique, All, All-In, In-append_right, UniqueBy,
}
use grid_node_registry.Registry.Models.{Tables, GNodeSql, AliasAssignmentSql}
use grid_node_registry.Registry.Session.{ok, pure, ◌>>=◌, raise_if, add_node, get_claim, has_point}
use grid_node_registry.Registry.Ledger.{claim_alias, insert_claim, check_owner}
use grid_node_registry.Registry.Consistency.{claim_of}

module _ {A B : Type 0} (key : A → B) where
  -- No row before has the key of one that comes after.
  pub UniqueBy-middle :
      (xs : List A) (a : A) (ys : List A)
      → UniqueBy key (xs ++ a ∷ ys)
      → All (λ x. key x ≢ key a) xs
  UniqueBy-middle [] a ys u = tt
  UniqueBy-middle (x ∷ xs) a ys u = (
    λ e. All-In _ a (xs ++ a ∷ ys) u.0 (In-append_right a xs (a ∷ ys) (inl refl)) (sym e),
    UniqueBy-middle xs a ys u.1,
  )

All-front : {A : Type 0} (P : A → Type 0) (xs ys : List A) → All P (xs ++ ys) → All P xs
All-front P [] ys h = tt
All-front P (x ∷ xs) ys (p, h) = (p, All-front P xs ys h)

pub UniqueBy-front :
    {A B : Type 0} (key : A → B) (xs ys : List A) → UniqueBy key (xs ++ ys) → UniqueBy key xs
UniqueBy-front key [] ys u = tt
UniqueBy-front key (x ∷ xs) ys u = (All-front _ xs ys u.0, UniqueBy-front key xs ys u.1)

pub no_row :
    {A : Type 0} (key : A → Text) (k : Text) (xs : List A)
    → All (λ x. key x ≢ k) xs
    → any (λ x. key x == k) xs ≡ false
no_row key k [] h = refl
no_row key k (x ∷ xs) (n, h) = ground (arith, no_row key k xs h)

pub not_found :
    {A : Type 0} (key : A → Text) (k : Text) (xs : List A)
    → All (λ x. key x ≢ k) xs
    → find? (λ x. key x == k) xs ≡ none
not_found key k [] h = refl
not_found key k (x ∷ xs) (n, h) = ground (arith, not_found key k xs h)

-- ---- the nodes

abbrev pub with_nodes : Tables → List GNodeSql → Tables
with_nodes t rows = record t { g_nodes = rows }

pub add_node-runs :
    (row : GNodeSql) (t : Tables)
    → any (λ (n : GNodeSql). n.id == row.id) t.g_nodes ≡ false
    → any (λ (n : GNodeSql). n.alias == row.alias) t.g_nodes ≡ false
    → has_point t row.position_point_id ≡ true
    → add_node row t ≡ (ok tt, with_nodes t (t.g_nodes ++ row ∷ []))
unfolding add_node ◌>>=◌
add_node-runs row t i a p = rw (i, a, p) refl

-- ---- the claims

abbrev pub with_claims : Tables → List AliasAssignmentSql → Tables
with_claims t claims = record t { alias_assignment = claims }

module _ (alias id : Text) (t : Tables)
    (u : UniqueBy
      (λ (c : AliasAssignmentSql). c.alias)
      (t.alias_assignment ++ claim_of alias id ∷ []))
    (known : any (λ (n : GNodeSql). n.id == id) t.g_nodes ≡ true) where
  unfoldable pub claimed : Tables
  claimed = with_claims t (t.alias_assignment ++ claim_of alias id ∷ [])

  free : get_claim alias t ≡ none
  unfolding get_claim
  free =
      not_found (λ c. c.alias) alias t.alias_assignment
        (UniqueBy-middle (λ c. c.alias) t.alias_assignment (claim_of alias id) [] u)

  taken : get_claim alias claimed ≡ some (claim_of alias id)
  unfolding get_claim claimed
  taken =
      find?_unique (λ c. c.alias) (t.alias_assignment ++ claim_of alias id ∷ []) (claim_of alias id)
        u
        (In-append_right (claim_of alias id) t.alias_assignment (claim_of alias id ∷ []) (inl refl))

  inserts : insert_claim alias id none t ≡ (ok tt, claimed)
  unfolding insert_claim ◌>>=◌ claimed
  inserts = rw known refl

  owns : check_owner alias id (some (claim_of alias id)) claimed ≡ (ok tt, claimed)
  unfolding check_owner raise_if pure
  owns = rw (==_refl id) refl

  pub claim_alias-runs : claim_alias alias id t ≡ (ok tt, claimed)
  unfolding claim_alias ◌>>=◌
  claim_alias-runs = rw (free, inserts, taken, owns) refl
