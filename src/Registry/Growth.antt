-- ===== src/Registry/Growth.antt =====
-- How the statements of a session (src/gnr/db) change the tables, also those that raise.
use grid_node_registry.Prelude.{
  ◌≡◌, refl, ◌∙◌, Bool, true, false, Option, none, some, [], ◌∷◌, ◌++◌, Text, text_eq, In,
  In-append_left,
}
use grid_node_registry.Registry.Models.{Tables, GNodeSql, AliasAssignmentSql, CommandLogSql}
use grid_node_registry.Registry.Session.{
  Result, ok, err, Error, Session, pure, raise, gets, modify, raise_if, ◌>>=◌, continue, settle,
  transaction, add_node, add_command,
}
use grid_node_registry.Registry.Ledger.{claim_alias, insert_claim, check_owner}

-- All but the alias and the previous alias.
pub record SameNode (n m : GNodeSql) : Type 0 where
  pub id : m.id ≡ n.id
  pub base_class : m.base_class ≡ n.base_class
  pub g_node_class : m.g_node_class ≡ n.g_node_class
  pub status : m.status ≡ n.status
  pub position_point_id : m.position_point_id ≡ n.position_point_id
  pub display_name : m.display_name ≡ n.display_name

pub record Grows (t u : Tables) : Type 0 where
  pub claims : (c : AliasAssignmentSql) → In c t.alias_assignment → In c u.alias_assignment
  pub commands : (c : CommandLogSql) → In c t.command_log → In c u.command_log
  pub edges : u.connectivity_edges ≡ t.connectivity_edges
  pub points : u.position_points ≡ t.position_points
  pub nodes : (n : GNodeSql) → In n t.g_nodes → (m : GNodeSql) × In m u.g_nodes × SameNode n m

pub SameNode-refl : (n : GNodeSql) → SameNode n n
SameNode-refl n = record {
  id = refl;
  base_class = refl;
  g_node_class = refl;
  status = refl;
  position_point_id = refl;
  display_name = refl;
}

SameNode-trans : (a b c : GNodeSql) → SameNode a b → SameNode b c → SameNode a c
SameNode-trans a b c p q = record {
  id = q.id ∙ p.id;
  base_class = q.base_class ∙ p.base_class;
  g_node_class = q.g_node_class ∙ p.g_node_class;
  status = q.status ∙ p.status;
  position_point_id = q.position_point_id ∙ p.position_point_id;
  display_name = q.display_name ∙ p.display_name;
}

pub Grows-refl : (t : Tables) → Grows t t
Grows-refl t = record {
  claims = λ c i. i;
  commands = λ c i. i;
  edges = refl;
  points = refl;
  nodes = λ n i. (n, i, SameNode-refl n);
}

pub Grows-trans : (t u v : Tables) → Grows t u → Grows u v → Grows t v
Grows-trans t u v p q = record {
  claims = λ c i. q.claims c (p.claims c i);
  commands = λ c i. q.commands c (p.commands c i);
  edges = q.edges ∙ p.edges;
  points = q.points ∙ p.points;
  nodes = λ n i.
      let (m, j, s) = p.nodes n i in
      let (k, l, r) = q.nodes m j in (k, l, SameNode-trans n m k s r);
}

-- A session grows the tables, whether it returns or raises.
pub record Growing {A : Type 0} (m : Session A) : Type 0 where
  pub at : (t : Tables) → Grows t (m t).1

module _ {A : Type 0} where
  pub Growing-pure : (a : A) → Growing (pure a)
  unfolding pure
  Growing-pure a = record { at = Grows-refl }

  pub Growing-raise : (e : Error) → Growing (raise {A = A} e)
  unfolding raise
  Growing-raise e = record { at = Grows-refl }

  pub Growing-gets : (f : Tables → A) → Growing (gets f)
  unfolding gets
  Growing-gets f = record { at = Grows-refl }

  pub Growing-transaction : (m : Session A) → Growing m → Growing (transaction m)
  unfolding transaction
  Growing-transaction m g = record { at = λ t. outcome t (m t) (g.at t) }
    where
      outcome : (t : Tables) (r : Result A × Tables) → Grows t r.1 → Grows t (settle t r).1
      outcome t (ok a, u) h = h
      outcome t (err e, u) h = Grows-refl t

pub Growing-raise_if : (b : Bool) (e : Error) → Growing (raise_if b e)
unfolding raise_if
Growing-raise_if true e = Growing-raise e
Growing-raise_if false e = Growing-pure tt

module _ {A B : Type 0} where
  After-bind :
      (f : A → Session B) (t : Tables) (r : Result A × Tables)
      → ((a : A) → Growing (f a))
      → Grows t r.1
      → Grows t (continue f r).1
  After-bind f t (ok a, u) k h = Grows-trans t u (f a u).1 h ((k a).at u)
  After-bind f t (err e, u) k h = h

  pub Growing-bind :
      (m : Session A) (f : A → Session B)
      → Growing m
      → ((a : A) → Growing (f a))
      → Growing (m >>= f)
  unfolding ◌>>=◌
  Growing-bind m f g k = record { at = λ t. After-bind f t (m t) k (g.at t) }

pub Growing-modify : (f : Tables → Tables) → ((t : Tables) → Grows t (f t)) → Growing (modify f)
unfolding modify
Growing-modify f h = record { at = h }

append_node : (t : Tables) (row : GNodeSql) → Grows t (record t { g_nodes = t.g_nodes ++ row ∷ [] })
append_node t row = record {
  claims = λ c i. i;
  commands = λ c i. i;
  edges = refl;
  points = refl;
  nodes = λ n i. (n, In-append_left n t.g_nodes _ i, SameNode-refl n);
}

append_claim :
    (t : Tables) (c : AliasAssignmentSql)
    → Grows t (record t { alias_assignment = t.alias_assignment ++ c ∷ [] })
append_claim t c = record {
  claims = λ d i. In-append_left d t.alias_assignment _ i;
  commands = λ d i. i;
  edges = refl;
  points = refl;
  nodes = λ n i. (n, i, SameNode-refl n);
}

append_command :
    (t : Tables) (c : CommandLogSql) → Grows t (record t { command_log = t.command_log ++ c ∷ [] })
append_command t c = record {
  claims = λ d i. i;
  commands = λ d i. In-append_left d t.command_log _ i;
  edges = refl;
  points = refl;
  nodes = λ n i. (n, i, SameNode-refl n);
}

pub ruleset growing_rules =
    (Growing-pure, Growing-raise, Growing-gets, Growing-transaction, Growing-raise_if, Growing-bind)

pub Growing-add_node : (row : GNodeSql) → Growing (add_node row)
unfolding add_node
Growing-add_node row = search (growing_rules, Growing-modify, append_node) depth 9

pub Growing-add_command : (row : CommandLogSql) → Growing (add_command row)
unfolding add_command
Growing-add_command row = search (growing_rules, Growing-modify, append_command)

Growing-insert_claim :
    (alias id : Text) (o : Option AliasAssignmentSql) → Growing (insert_claim alias id o)
unfolding insert_claim
Growing-insert_claim alias id none = search (growing_rules, Growing-modify, append_claim)
Growing-insert_claim alias id (some c) = search growing_rules

Growing-check_owner :
    (alias id : Text) (o : Option AliasAssignmentSql) → Growing (check_owner alias id o)
unfolding check_owner
Growing-check_owner alias id none = search growing_rules
Growing-check_owner alias id (some c) = search growing_rules

pub Growing-claim_alias : (alias id : Text) → Growing (claim_alias alias id)
unfolding claim_alias
Growing-claim_alias alias id = search (growing_rules, Growing-insert_claim, Growing-check_owner)
