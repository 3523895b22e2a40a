-- ===== src/Authority/Reachability.antt =====
-- Sequences of commands on one registry: what a run keeps, from any registry that is sound.
use grid_node_registry.Prelude.{
  ◌≡◌, refl, subst, inl, inr, find?, sym, ap, some, Option-cases, Text, text_eq, ◌==◌, ==→≡, In,
  find?-some, find?_unique, unique_of_key,
}
use grid_node_registry.Sema.Messages.{GNodeForest, GNodeCreateCmd, GNodeReparentCmd}
use grid_node_registry.Registry.Models.{Tables, GNodeSql}
use grid_node_registry.Registry.Validate.Spec.{IsClean, HasUniqueNodes, validate_registry_iff}
use grid_node_registry.Registry.Session.{
  Result, ok, err, Error, Session, get_node, query_alias, get_claim,
}
use grid_node_registry.Registry.Growth.{Grows, Grows-refl, Grows-trans, Growing}
use grid_node_registry.Registry.Keeps.{Keeps, After}
use grid_node_registry.Registry.Consistency.{IsConsistent, claim_of}
use grid_node_registry.Registry.Reads.{IsAtomic}
use grid_node_registry.Authority.{World, Config, current_or_past, owner_of}
use grid_node_registry.Authority.Create.{apply_create}
use grid_node_registry.Authority.Reparent.{apply_reparent}
use grid_node_registry.Authority.Growth.{apply_create-Growing, apply_reparent-Growing}
use grid_node_registry.Authority.Consistency.{IsRegistry, Keeps-apply_create, Keeps-apply_reparent}
use grid_node_registry.Authority.Atomicity.{apply_create-IsAtomic, apply_reparent-IsAtomic}

pub data Command : Type 0 where
  create : GNodeCreateCmd → Command
  reparent : GNodeReparentCmd → Command

unfoldable pub apply : World → Config → Command → Session GNodeForest
apply w c (create cmd) = apply_create w c cmd
apply w c (reparent cmd) = apply_reparent w c cmd

-- The commands that an instance serves one after the other, each at its own time, refused or not.
pub data Reach (c : Config) (t : Tables) : Tables → Type 0 where
  start : Reach c t t
  step : (w : World) (cmd : Command) (u : Tables) → Reach c t u → Reach c t (apply w c cmd u).1

apply-Growing : (w : World) (c : Config) (cmd : Command) → Growing (apply w c cmd)
unfolding apply
apply-Growing w c (create cmd) = apply_create-Growing w c cmd
apply-Growing w c (reparent cmd) = apply_reparent-Growing w c cmd

apply-IsAtomic : (w : World) (c : Config) (cmd : Command) → IsAtomic (apply w c cmd)
unfolding apply
apply-IsAtomic w c (create cmd) = apply_create-IsAtomic w c cmd
apply-IsAtomic w c (reparent cmd) = apply_reparent-IsAtomic w c cmd

-- A command that raises an error leaves the tables as they were.
pub apply-atomic :
    (w : World) (c : Config) (cmd : Command) (t : Tables) (e : Error)
    → (apply w c cmd t).0 ≡ err e
    → (apply w c cmd t).1 ≡ t
apply-atomic w c cmd t e h = (apply-IsAtomic w c cmd).at t e h

Keeps-apply :
    (w : World) (c : Config) (cmd : Command)
    → Keeps (IsRegistry c.universe) (IsRegistry c.universe) (apply w c cmd)
unfolding apply
Keeps-apply w c (create cmd) = Keeps-apply_create w c cmd
Keeps-apply w c (reparent cmd) = Keeps-apply_reparent w c cmd

-- With the roll-back, an outcome of either kind is a registry.
either_way :
    (universe : Text) (t : Tables) (r : Result GNodeForest × Tables)
    → IsRegistry universe t
    → After (IsRegistry universe) r
    → ((e : _) → r.0 ≡ err e → r.1 ≡ t)
    → IsRegistry universe r.1
either_way universe t (ok f, u) h k a = k
either_way universe t (err e, u) h k a = subst (IsRegistry universe) (sym (a e refl)) h

module _ (c : Config) (t : Tables) where
  -- From a registry that is consistent and has no violations, every sequence of create and re-parent
  -- commands leads to one that is consistent and has no violations, whatever was refused on the way.
  pub Reach-IsRegistry :
      (u : Tables) → IsRegistry c.universe t → Reach c t u → IsRegistry c.universe u
  Reach-IsRegistry u h start = h
  Reach-IsRegistry u h (step w cmd v r) =
      let k = Reach-IsRegistry v h r in
      either_way c.universe v (apply w c cmd v) k ((Keeps-apply w c cmd).at v k)
        ((apply-IsAtomic w c cmd).at v)

  -- Every sequence of commands keeps each claim of an alias, each logged command, each node with its
  -- id, class, status, position and name, and all edges and positions.
  pub Reach-Grows : (u : Tables) → Reach c t u → Grows t u
  Reach-Grows u start = Grows-refl t
  Reach-Grows u (step w cmd v r) =
      Grows-trans t v (apply w c cmd v).1 (Reach-Grows v r) ((apply-Growing w c cmd).at v)

  -- From a registry that is consistent and has no violations, every sequence of commands leads to one
  -- in which the five invariants of the whole registry hold.
  pub Reach-IsClean : (u : Tables) → IsRegistry c.universe t → Reach c t u → IsClean u c.universe
  Reach-IsClean u h r =
      let k = Reach-IsRegistry u h r in
      let unique : HasUniqueNodes u = record {
        ids = k.consistent.keyed.ids;
        aliases = k.consistent.keyed.aliases;
      } in
      (validate_registry_iff u c.universe unique).0 k.clean

-- ---- aliases, current and past

module _ (t : Tables) (h : IsConsistent t) (alias id : Text)
    (i : In (claim_of alias id) t.alias_assignment) where
  claim_found : get_claim alias t ≡ some (claim_of alias id)
  unfolding get_claim
  claim_found = find?_unique (λ c. c.alias) t.alias_assignment (claim_of alias id) h.keyed.claims i

  owner_found : (n : GNodeSql) × In n t.g_nodes × (n.id ≡ id) × (get_node id t ≡ some n)
  unfolding get_node
  owner_found =
      let (n, j, e) = h.keyed.owners (claim_of alias id) i in
      (
        n,
        j,
        e,
        subst (λ x. find? (λ m. m.id == x) t.g_nodes ≡ some n) e
            (find?_unique (λ m. m.id) t.g_nodes n h.keyed.ids j),
      )

  -- In a consistent registry the resolution of an alias that was ever claimed returns the node that
  -- claimed it, in its current form.
  pub current_or_past_owner :
      (n : GNodeSql) × (current_or_past alias (query_alias alias t) t ≡ some n)
      × In n t.g_nodes
      × (n.id ≡ id)
  unfolding current_or_past owner_of query_alias
  current_or_past_owner = elim (Option-cases (query_alias alias t)) [
    | inl past ↦ let (n, j, e, f) = owner_found in (n, rw (past, claim_found) f, j, e)
    | inr (n, now) ↦ (n, rw now refl, (is_current n now).0, (is_current n now).1)
  ]
    where
      is_current : (n : GNodeSql) → query_alias alias t ≡ some n → In n t.g_nodes × (n.id ≡ id)
      is_current n now =
          let (j, same) = find?-some (λ m. m.alias == alias) n t.g_nodes now in
          (
            j,
            ap (λ x. x.g_node_id)
                (unique_of_key (λ x. x.alias) t.alias_assignment (claim_of n.alias n.id)
                  (claim_of alias id) h.keyed.claims (h.owned n j) i (==→≡ _ _ same)),
          )

-- An alias that a registry has claimed resolves, after any sequence of commands, to a row of the node
-- that claimed it, from a registry that is consistent and has no violations.
pub Reach-resolves :
    (c : Config) (t u : Tables) (alias id : Text)
    → IsRegistry c.universe t
    → Reach c t u
    → In (claim_of alias id) t.alias_assignment
    → (n : GNodeSql) × (current_or_past alias (query_alias alias u) u ≡ some n)
      × In n u.g_nodes
      × (n.id ≡ id)
Reach-resolves c t u alias id h r i =
    current_or_past_owner u (Reach-IsRegistry c t u h r).consistent alias id
      ((Reach-Grows c t u r).claims _ i)
