-- ===== src/Authority.antt =====
-- src/gnr/db/authority.py: `PostgresAuthority`, its configuration and its reads. The mutations are
-- in the modules below.
pub mod Create
pub mod Reparent
pub mod Growth
pub mod Rename
pub mod Reads
pub mod Consistency
pub mod Atomicity
pub mod Reachability
pub mod Collisions
pub mod Forest
pub mod Moves
pub mod Effects
pub mod Subtree
pub mod Rewriting
pub mod Guards
pub mod Replay
pub mod Success
use grid_node_registry.Prelude.{
  ℕ, Bool, true, false, not, ◌&&◌, ◌||◌, Option, none, some, List, [], ◌∷◌, ◌++◌, map, Text, codes,
  text_eq, ◌==◌, contains, filter, find?, sort, text_leb, if◌then◌else◌,
}
use grid_node_registry.Text.{dot}
use grid_node_registry.Text.Like.{like}
use grid_node_registry.Alias.{is_forest_root}
use grid_node_registry.Sema.Enums.{GNodeStatus, active, status_eq}
use grid_node_registry.Sema.GNode.{GNodeGt, Invalid, validate}
use grid_node_registry.Sema.Messages.{
  ConnectivityEdgeGt, GNodeForest, GNodeCreateCmd, GNodeReparentCmd, validate_edge, validate_forest,
}
use grid_node_registry.Registry.Models.{
  Tables, GNodeSql, ConnectivityEdgeSql, AliasAssignmentSql, gt_of_row, gt_of_edge,
}
use grid_node_registry.Registry.Session.{
  Session, Refusal, Error, pure, raise, gets, raise_if, ◌>>=◌, ◌>>◌, validation_error, bad_proof,
  get_node, query_alias, get_claim,
}

-- What the registry calls and does not implement: SHA-256, the text encoding, pydantic's
-- serialisation, the order of a column in the database (its collation), and the clock, as it stands
-- during one call.
pub record World : Type 0 where
  pub sha256_hex : List ℕ → Text
  pub encode : Text → List ℕ
  pub decode : List ℕ → Text
  pub create_bytes : GNodeCreateCmd → List ℕ
  pub reparent_bytes : GNodeReparentCmd → List ℕ
  pub collate : Text → Text → Bool
  pub send_time_ms : ℕ

-- The arguments of `PostgresAuthority`.
pub record Config : Type 0 where
  pub universe : Text
  pub write_proof_sha256 : Option Text

pub record EdgeView : Type 0 where
  pub parents : List ConnectivityEdgeGt
  pub children : List ConnectivityEdgeGt

-- A pydantic constructor raises where the validation fails.
unfoldable pub validated : {A : Type 0} → A → Option Invalid → Session A
validated a none = pure a
validated a (some e) = raise (validation_error e)

unfoldable pub to_gt : GNodeSql → Session GNodeGt
to_gt row = validated (gt_of_row row) (validate (gt_of_row row))

unfoldable pub to_gts : List GNodeSql → Session (List GNodeGt)
to_gts [] = pure []
to_gts (row ∷ rows) = do gt ← to_gt row; gts ← to_gts rows; pure (gt ∷ gts)

unfoldable pub edges_to_gts : List ConnectivityEdgeSql → Session (List ConnectivityEdgeGt)
edges_to_gts [] = pure []
edges_to_gts (row ∷ rows) = do
  gt ← validated (gt_of_edge row) (validate_edge (gt_of_edge row))
  gts ← edges_to_gts rows
  pure (gt ∷ gts)

unfoldable pub new_forest :
    List Text → List GNodeGt → List ConnectivityEdgeGt → ℕ → Session GNodeForest
new_forest roots nodes edges time =
    let forest : GNodeForest = record {
      roots = roots;
      nodes = nodes;
      edges = edges;
      send_time_ms = time;
      proof = none;
    } in
    validated forest (validate_forest forest)

unfoldable pub optional_gt : Option GNodeSql → Session (Option GNodeGt)
optional_gt none = pure none
optional_gt (some row) = do gt ← to_gt row; pure (some gt)

-- ---- reads

unfoldable pub get_by_id : Text → Session (Option GNodeGt)
get_by_id g_node_id = do optional_gt (← gets (get_node g_node_id))

unfoldable pub get_by_alias : Text → Session (Option GNodeGt)
get_by_alias alias = do optional_gt (← gets (query_alias alias))

abbrev is_active_row : Option GNodeSql → Bool
unfolding status_eq
is_active_row none = false
is_active_row (some row) = row.status == active

unfoldable pub assert_active : Text → Tables → Bool
unfolding status_eq
assert_active g_node_id t = is_active_row (get_node g_node_id t)

unfoldable pub active_edge_where : (ConnectivityEdgeSql → Bool) → Tables → List ConnectivityEdgeSql
unfolding status_eq
active_edge_where p t = filter (λ e. e.status == active && p e) t.connectivity_edges

unfoldable pub fetch_edges : Text → Session EdgeView
unfolding text_eq
fetch_edges g_node_id = do
  parents ← edges_to_gts (← gets (active_edge_where (λ e. e.to_g_node_id == g_node_id)))
  children ← edges_to_gts (← gets (active_edge_where (λ e. e.from_g_node_id == g_node_id)))
  pure (record { parents = parents; children = children })

unfoldable pub owner_of : Option AliasAssignmentSql → Tables → Option GNodeSql
owner_of none t = none
owner_of (some claim) t = get_node claim.g_node_id t

-- A current alias, or the owner of a past one in its current form.
unfoldable pub current_or_past : Text → Option GNodeSql → Tables → Option GNodeSql
unfolding owner_of
current_or_past alias none t = owner_of (get_claim alias t) t
current_or_past alias (some row) t = some row

unfoldable pub resolve_alias : Text → Session (Option GNodeGt)
resolve_alias alias = do
  row ← gets (query_alias alias)
  optional_gt (← gets (current_or_past alias row))

unfoldable pub forest_roots : Tables → List Text
forest_roots t = sort text_leb (filter is_forest_root (map (λ n. n.alias) t.g_nodes))

-- (alias == root) | alias.like(root + ".%")
unfoldable pub in_subtree_sql : Text → Text → Bool
unfolding text_eq
in_subtree_sql root alias = alias == root || like (root ++ codes ".%") alias

unfoldable pub subtree_rows : Text → Tables → List GNodeSql
unfolding in_subtree_sql
subtree_rows root t = filter (λ n. in_subtree_sql root n.alias) t.g_nodes

abbrev pub ids_of : List GNodeSql → List Text
ids_of = map (λ n. n.id)

-- The inner loop: the rows whose id is not among the nodes yet.
unfoldable pub add_unseen : List GNodeSql → List GNodeSql → List GNodeSql
unfolding text_eq
add_unseen nodes [] = nodes
add_unseen nodes (row ∷ rows) =
    add_unseen (if contains (ids_of nodes) row.id then nodes else nodes ++ row ∷ []) rows

-- Both ends among the ids; `if seen` is no more than a short cut.
unfoldable pub edges_among : List Text → Tables → List ConnectivityEdgeSql
unfolding text_eq
edges_among ids t =
    active_edge_where (λ e. contains ids e.from_g_node_id && contains ids e.to_g_node_id) t

module _ (w : World) where
  unfoldable pub forest_rows : List GNodeSql → List Text → Tables → List GNodeSql
  unfolding add_unseen subtree_rows
  forest_rows nodes [] t = nodes
  forest_rows nodes (root ∷ roots) t =
      forest_rows (add_unseen nodes (sort (λ a b. w.collate a.alias b.alias) (subtree_rows root t)))
        roots t

  unfoldable pub get_forest : List Text → Session GNodeForest
  get_forest roots = do
    rows ← gets (forest_rows [] roots)
    edges ← gets (λ t. sort (λ a b. w.collate a.id b.id) (edges_among (ids_of rows) t))
    nodes ← to_gts rows
    edge_gts ← edges_to_gts edges
    new_forest roots nodes edge_gts w.send_time_ms

module _ (w : World) (c : Config) where
  -- hashlib.sha256(proof.encode()).hexdigest() != self._write_proof_sha256
  abbrev pub proof_fails : Option Text → Option Text → Bool
  unfolding text_eq
  proof_fails none proof = false
  proof_fails (some expected) none = true
  proof_fails (some expected) (some proof) = not (w.sha256_hex (w.encode proof) == expected)

  unfoldable pub check_proof : Option Text → (Refusal → Error) → Session (Unit {0})
  unfolding text_eq
  check_proof proof error = raise_if (proof_fails c.write_proof_sha256 proof) (error bad_proof)
