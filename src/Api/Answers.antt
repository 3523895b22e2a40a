-- ===== src/Api/Answers.antt =====
-- What the routes of src/gnr/api.py answer: when a lookup finds nothing.
use grid_node_registry.Prelude.{
  ◌≡◌, ◌≢◌, ◌↔◌, refl, sym, ap, ◌∙◌, subst, inl, inr, true, Option, none, some, Text, text_eq, ◌==◌,
  ==→≡, In, find?, find?-some, find?-none-All, find?_unique, All-In, Option-cases, Bool, false,
  if◌then◌else◌,
}
use grid_node_registry.Sema.Format.{is_left_right_dot}
use grid_node_registry.Sema.GNode.{GNodeGt, validate}
use grid_node_registry.Registry.Models.{Tables, GNodeSql, AliasAssignmentSql, gt_of_row}
use grid_node_registry.Registry.Session.{pure, ◌>>=◌, get_node, query_alias, get_claim}
use grid_node_registry.Registry.Consistency.{IsConsistent, claim_of}
use grid_node_registry.Authority.{
  optional_gt, to_gt, validated, resolve_alias, current_or_past, owner_of,
}
use grid_node_registry.Api.{
  Response, unprocessable, success, not_found, found_or_404, g_node_by_alias,
}

-- A row is answered by a node or by an error.
row_answered :
    (asked x : Text) (row : GNodeSql) (t : Tables)
    → found_or_404 asked (optional_gt (some row) t).0 ≢ not_found x
unfolding optional_gt to_gt validated ◌>>=◌ found_or_404
row_answered asked x row t = elim (Option-cases (validate (gt_of_row row))) [
  | inl e ↦ rw (e) (λ h. cc)
  | inr (i, e) ↦ rw (e) (λ h. cc)
]

-- A success is that of the lookup.
let_through :
    (b : Bool) (r : Response GNodeGt) (node : GNodeGt)
    → (if b then r else unprocessable) ≡ success node
    → r ≡ success node
let_through true r node e = e
let_through false r node e = cc

id_same : (n row : GNodeSql) → some n ≡ some row → n.id ≡ row.id
id_same n row e = cc

none_lost :
    (asked : Text) (node : GNodeGt) (t : Tables)
    → found_or_404 asked (optional_gt none t).0 ≢ success node
unfolding optional_gt found_or_404 pure
none_lost asked node t e = cc

-- The node that answers for a row has the id of the row.
answered_id :
    (asked : Text) (node : GNodeGt) (row : GNodeSql) (t : Tables)
    → found_or_404 asked (optional_gt (some row) t).0 ≡ success node
    → node.g_node_id ≡ row.id
unfolding optional_gt to_gt validated ◌>>=◌ found_or_404 gt_of_row
answered_id asked node row t = elim (Option-cases (validate (gt_of_row row))) [
  | inl e ↦ rw (e) (λ h. cc)
  | inr (i, e) ↦ rw (e) (λ h. cc)
]

module _ (t : Tables) (h : IsConsistent t) where
  -- The owner of a claim has a row.
  owner_found :
      (c : AliasAssignmentSql)
      → In c t.alias_assignment
      → (n : GNodeSql) × (get_node c.g_node_id t ≡ some n)
  unfolding get_node
  owner_found c i =
      let (n, j, e) = h.keyed.owners c i in
      (
        n,
        subst (λ k. find? (λ r. r.id == k) t.g_nodes ≡ some n) e
            (find?_unique (λ r. r.id) t.g_nodes n h.keyed.ids j),
      )

  -- An alias that was never assigned has no row.
  unassigned : (alias : Text) → get_claim alias t ≡ none → query_alias alias t ≡ none
  unfolding get_claim query_alias
  unassigned alias e = elim (Option-cases (find? (λ n. n.alias == alias) t.g_nodes)) [
    | inl none_found ↦ none_found
    | inr (n, found) ↦
        let (i, same) = find?-some (λ n. n.alias == alias) n t.g_nodes found in
        absurd (
          All-In _ (claim_of n.alias n.id) t.alias_assignment
            (find?-none-All (λ c. c.alias) alias t.alias_assignment e) (h.owned n i)
            (==→≡ n.alias alias same))
  ]

  lost_owner :
      (o : Option GNodeSql) (alias : Text)
      → current_or_past alias o t ≡ none
      → owner_of (get_claim alias t) t ≡ none
  unfolding current_or_past
  lost_owner none alias e = e
  lost_owner (some row) alias e = cc

  never_assigned :
      (alias : Text)
      → current_or_past alias (query_alias alias t) t ≡ none
      → get_claim alias t ≡ none
  unfolding owner_of get_claim
  never_assigned alias e = elim (Option-cases (get_claim alias t)) [
    | inl none_found ↦ none_found
    | inr (c, found) ↦
        let (i, p) = find?-some (λ c. c.alias == alias) c t.alias_assignment found in
        let (n, given) = owner_found c i in
        let lost : owner_of (get_claim alias t) t ≡ none =
          lost_owner (query_alias alias t) alias e in
        cc (sym given ∙ ap (λ o. owner_of o t) (sym found) ∙ lost)
  ]

  nothing :
      (alias : Text)
      → get_claim alias t ≡ none
      → found_or_404 alias (optional_gt (current_or_past alias none t) t).0 ≡ not_found alias
  unfolding current_or_past owner_of optional_gt found_or_404 pure
  nothing alias e = rw (e) refl

  -- A well-formed alias is answered by 404 exactly if the ledger has no claim of it.
  pub g_node_by_alias-not_found :
      (alias : Text)
      → is_left_right_dot alias ≡ true
      → (g_node_by_alias alias t ≡ not_found alias) ↔ (get_claim alias t ≡ none)
  unfolding g_node_by_alias resolve_alias ◌>>=◌
  g_node_by_alias-not_found alias f = rw (f) (
    λ e. elim (Option-cases (current_or_past alias (query_alias alias t) t)) [
      | inl lost ↦ never_assigned alias lost
      | inr (row, found) ↦ absurd (
          row_answered alias alias row t
            (ap (λ o. found_or_404 alias (optional_gt o t).0) (sym found) ∙ e))
    ],
    λ e. rw (unassigned alias e) (nothing alias e),
  )

  claim_with :
      (alias id : Text) (c : AliasAssignmentSql)
      → In c t.alias_assignment
      → c.alias ≡ alias
      → c.g_node_id ≡ id
      → In (claim_of alias id) t.alias_assignment
  claim_with alias id c i a e =
      subst (λ x. In x t.alias_assignment)
        (ap (λ x. claim_of x c.g_node_id) a ∙ ap (λ x. claim_of alias x) e) i

  owner_owns :
      (alias : Text) (row : GNodeSql)
      → owner_of (get_claim alias t) t ≡ some row
      → In (claim_of alias row.id) t.alias_assignment
  unfolding owner_of get_claim get_node
  owner_owns alias row e = elim (Option-cases (get_claim alias t)) [
    | inl lost ↦ cc (ap (λ o. owner_of o t) (sym lost) ∙ e)
    | inr (c, found) ↦
        let (i, a) = find?-some (λ c. c.alias == alias) c t.alias_assignment found in
        let (j, b) =
          find?-some (λ n. n.id == c.g_node_id) row t.g_nodes
            (ap (λ o. owner_of o t) (sym found) ∙ e) in
        claim_with alias row.id c i (==→≡ c.alias alias a) (sym (==→≡ row.id c.g_node_id b))
  ]

  row_owns :
      (alias : Text) (row : GNodeSql)
      → current_or_past alias (query_alias alias t) t ≡ some row
      → In (claim_of alias row.id) t.alias_assignment
  unfolding current_or_past query_alias
  row_owns alias row e = elim (Option-cases (query_alias alias t)) [
    | inl lost ↦ owner_owns alias row (ap (λ o. current_or_past alias o t) (sym lost) ∙ e)
    | inr (n, found) ↦
        let (i, a) = find?-some (λ n. n.alias == alias) n t.g_nodes found in
        let same : some n ≡ some row = ap (λ o. current_or_past alias o t) (sym found) ∙ e in
        claim_with alias row.id (claim_of n.alias n.id) (h.owned n i) (==→≡ n.alias alias a)
          (id_same n row same)
  ]

  -- The node that answers an alias, which may be a past one, is that which the ledger has claimed the
  -- alias for.
  pub g_node_by_alias-owner :
      (alias : Text) (node : GNodeGt)
      → g_node_by_alias alias t ≡ success node
      → In (claim_of alias node.g_node_id) t.alias_assignment
  unfolding g_node_by_alias resolve_alias ◌>>=◌
  g_node_by_alias-owner alias node e =
      let given =
        let_through (is_left_right_dot alias) (found_or_404 alias (resolve_alias alias t).0) node
          e in
      elim (Option-cases (current_or_past alias (query_alias alias t) t)) [
        | inl lost ↦ absurd (
            none_lost alias node t
              (ap (λ o. found_or_404 alias (optional_gt o t).0) (sym lost) ∙ given))
        | inr (row, found) ↦
            subst (λ i. In (claim_of alias i) t.alias_assignment)
              (sym (
                answered_id alias node row t
                  (ap (λ o. found_or_404 alias (optional_gt o t).0) (sym found) ∙ given)))
              (row_owns alias row found)
      ]
