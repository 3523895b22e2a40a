-- ===== src/Registry/Session.antt =====
-- The session of a transaction: the tables as they stand, or an exception. What a statement has
-- written stays written after a raise, until `transaction` rolls it back. The constraints are those
-- of src/gnr/db/models.py; the database reports a breach as an integrity error.
use grid_node_registry.Prelude.{
  Bool, true, not, Option, none, some, List, [], ◌∷◌, ◌++◌, Text, text_eq, option_eq, ◌==◌, any,
  find?, if◌then◌else◌,
}
use grid_node_registry.Sema.Enums.{GNodeStatus}
use grid_node_registry.Sema.GNode.{Invalid}
use grid_node_registry.Registry.Models.{Tables, GNodeSql, AliasAssignmentSql, CommandLogSql}
use grid_node_registry.Registry.Violations.{Violation}

-- The reasons of `CreateError` and `ReparentError`: a constructor for each message text, with the
-- values that the text shows.
pub data Refusal : Type 0 where
  bad_proof : Refusal
  wrong_universe : Text → Text → Refusal
  id_exists : Text → Refusal
  alias_owned : Text → Text → Refusal
  parent_not_found : Text → Text → Refusal
  parent_not_live : Text → GNodeStatus → Refusal
  new_node_is_root : Text → Refusal
  child_not_found : Text → Refusal
  alias_collision : List (Text × Text) → Refusal
  violates : List Violation → Refusal

pub data Constraint : Type 0 where
  position_points_pkey g_nodes_pkey g_nodes_alias_key position_point_fkey alias_assignment_fkey
        command_log_pkey :
      Constraint

pub data Error : Type 0 where
  create_error : Refusal → Error
  reparent_error : Refusal → Error
  alias_already_owned : Text → Text → Text → Error
  integrity_error : Constraint → Error
  no_result_found : Error
  validation_error : Invalid → Error
  undecodable : Error

pub data Result (A : Type 0) : Type 0 where
  ok : A → Result A
  err : Error → Result A

abbrev pub Session : Type 0 → Type 0
Session A = Tables → Result A × Tables

module _ {A : Type 0} where
  unfoldable pub pure : A → Session A
  pure a t = (ok a, t)

  unfoldable pub raise : Error → Session A
  raise e t = (err e, t)

  unfoldable pub gets : (Tables → A) → Session A
  gets f t = (ok (f t), t)

unfoldable pub modify : (Tables → Tables) → Session (Unit {0})
modify f t = (ok tt, f t)

unfoldable pub raise_if : Bool → Error → Session (Unit {0})
unfolding pure raise
raise_if b e = if b then raise e else pure tt

-- Whoever unfolds `>>=` also sees through the actions above.
abbrev pub continue : {A B : Type 0} → (A → Session B) → Result A × Tables → Result B × Tables
continue f (ok a, t) = f a t
continue f (err e, t) = (err e, t)

infixl 5 ◌>>=◌ ◌>>◌
unfoldable pub ◌>>=◌ : {A B : Type 0} → Session A → (A → Session B) → Session B
unfolding pure raise gets modify raise_if
◌>>=◌ m f t = continue f (m t)

abbrev pub ◌>>◌ : {B : Type 0} → Session (Unit {0}) → Session B → Session B
m >> k = m >>= λ _. k

-- `with session_factory() as s: … s.commit()`: a raise leaves the database as it was.
abbrev pub settle : {A : Type 0} → Tables → Result A × Tables → Result A × Tables
settle t (ok a, u) = (ok a, u)
settle t (err e, u) = (err e, t)

unfoldable pub transaction : {A : Type 0} → Session A → Session A
transaction m t = settle t (m t)

-- s.get(GNodeSql, id)
unfoldable pub get_node : Text → Tables → Option GNodeSql
unfolding text_eq
get_node id t = find? (λ n. n.id == id) t.g_nodes

-- s.query(GNodeSql).filter_by(alias=alias).one_or_none(); the column is unique
unfoldable pub query_alias : Text → Tables → Option GNodeSql
unfolding text_eq
query_alias alias t = find? (λ n. n.alias == alias) t.g_nodes

-- s.get(AliasAssignmentSql, alias)
unfoldable pub get_claim : Text → Tables → Option AliasAssignmentSql
unfolding text_eq
get_claim alias t = find? (λ c. c.alias == alias) t.alias_assignment

-- s.get(CommandLogSql, chash)
unfoldable pub get_command : Text → Tables → Option CommandLogSql
unfolding text_eq
get_command chash t = find? (λ c. c.command_hash == chash) t.command_log

abbrev pub has_point : Tables → Option Text → Bool
has_point t none = true
has_point t (some id) = any (λ p. p.id == id) t.position_points

-- s.add(row) for a node, as the flush that follows lands it
unfoldable pub add_node : GNodeSql → Session (Unit {0})
unfolding text_eq
add_node row = do
  raise_if (← gets (λ t. any (λ n. n.id == row.id) t.g_nodes)) (integrity_error g_nodes_pkey)
  raise_if (← gets (λ t. any (λ n. n.alias == row.alias) t.g_nodes))
      (integrity_error g_nodes_alias_key)
  raise_if (← gets (λ t. not (has_point t row.position_point_id)))
      (integrity_error position_point_fkey)
  modify (λ t. record t { g_nodes = t.g_nodes ++ row ∷ [] })

unfoldable pub add_command : CommandLogSql → Session (Unit {0})
unfolding text_eq
add_command row = do
  raise_if (← gets (λ t. any (λ c. c.command_hash == row.command_hash) t.command_log))
      (integrity_error command_log_pkey)
  modify (λ t. record t { command_log = t.command_log ++ row ∷ [] })
