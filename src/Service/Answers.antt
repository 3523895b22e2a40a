-- ===== src/Service/Answers.antt =====
-- What `GnrRabbit` of src/gnr/gnr_rabbit.py sends: answers, channels and snapshots.
use grid_node_registry.Prelude.{
  ℕ, suc, subst, ◌≡◌, refl, sym, ap, ◌∙◌, ◌⊎◌, inl, inr, arith, true, Option, none, some, List, [],
  ◌∷◌, ◌++◌, append_assoc, Text, All, false, Bool-cases,
}
use grid_node_registry.Text.{dot, count}
use grid_node_registry.Text.Laws.{count-append}
use grid_node_registry.Alias.{
  parent_alias, in_subtree, rewrite_alias, moved_child_new_prefix, last_word,
}
use grid_node_registry.Alias.Paths.{child_of, child_of-parent_alias, count-parent_alias}
use grid_node_registry.Alias.Rewrite.{
  Below, in_subtree-Below, Below-in_subtree, rewrite_alias-Below,
}
use grid_node_registry.Sema.Messages.{GNodeForest, GNodeReparentCmd}
use grid_node_registry.Registry.Models.{Tables}
use grid_node_registry.Registry.Session.{
  Result, ok, err, Error, Refusal, create_error, reparent_error,
}
use grid_node_registry.Authority.{World, Config, forest_roots, get_forest}
use grid_node_registry.Authority.Reachability.{Command, reparent, apply, apply-atomic}
use grid_node_registry.Service.{
  nack, Outgoing, topology, direct, radio_channel, reply, apply_and_broadcast, broadcast_snapshots,
  broadcast_all_snapshots, snapshot_then, Tick, tick_sends, snapshot_loop,
}

-- The channels of what is sent.
abbrev pub channels : List Outgoing → List Text
channels [] = []
channels (topology channel forest ∷ sent) = channel ∷ channels sent
channels (direct class alias verdict ∷ sent) = channels sent

Below-trans : (a p q : Text) → Below a p → Below p q → Below a q
Below-trans a p q (inl e) k = subst (λ x. Below x q) (sym e) k
Below-trans a p q (inr (s, e)) (inl f) = inr (s, e ∙ ap (λ x. x ++ dot ∷ s) f)
Below-trans a p q (inr (s, e)) (inr (u, f)) =
    inr (u ++ dot ∷ s, e ∙ ap (λ x. x ++ dot ∷ s) f ∙ append_assoc q (dot ∷ u) (dot ∷ s))

Below-channel :
    (cmd : GNodeReparentCmd) (a : Text)
    → Below a (parent_alias cmd.new_node.alias)
    → in_subtree a (radio_channel (reparent cmd)) ≡ true
unfolding radio_channel
Below-channel cmd a h = Below-in_subtree a (parent_alias cmd.new_node.alias) h

not_under :
    (cmd : GNodeReparentCmd) (c : Text) {k : ℕ}
    → count dot cmd.new_node.alias ≡ suc k
    → count dot c ≡ suc k
    → in_subtree (radio_channel (reparent cmd)) c ≡ false
unfolding radio_channel
not_under cmd c {k} d dc = elim (Bool-cases (in_subtree p c)) [
  | inl e ↦ elim (in_subtree-Below p c e) [
    | inl same ↦ absurd (ground (arith, count-parent_alias cmd.new_node.alias d, same))
    | inr (s, longer) ↦ absurd (
        ground
          (arith, count-parent_alias cmd.new_node.alias d, longer, count-append dot c (dot ∷ s)))
  ]
  | inr e ↦ e
]
  where
    p : Text
    p = parent_alias cmd.new_node.alias

-- Where a moved child was a sibling of the new node, every node of its subtree lies under the channel of
-- the broadcast both by the alias that it had, which its audience is bound under, and by the one that it
-- gets; and the channel is none of the aliases that change.
pub moved_under-radio_channel :
    (cmd : GNodeReparentCmd) (c a : Text) {k : ℕ}
    → count dot cmd.new_node.alias ≡ suc k
    → count dot c ≡ suc k
    → parent_alias c ≡ parent_alias cmd.new_node.alias
    → in_subtree a c ≡ true
    → (in_subtree a (radio_channel (reparent cmd)) ≡ true)
      × (in_subtree
            (rewrite_alias a c (moved_child_new_prefix cmd.new_node.alias c))
            (radio_channel (reparent cmd))
          ≡ true)
      × (in_subtree (radio_channel (reparent cmd)) c ≡ false)
unfolding moved_child_new_prefix
moved_under-radio_channel cmd c a {k} d dc sibling h =
    let n = cmd.new_node.alias in
    let moved : Below (rewrite_alias a c (child_of n (last_word c))) (child_of n (last_word c)) =
      rewrite_alias-Below a c _ (in_subtree-Below a c h) in
    let under_n : Below (rewrite_alias a c (child_of n (last_word c))) n =
      Below-trans _ (child_of n (last_word c)) n moved (inr (last_word c, refl)) in
    let child : Below c (parent_alias n) =
      subst (Below c) sibling (inr (last_word c, child_of-parent_alias c dc)) in
    (
      Below-channel cmd a (Below-trans a c (parent_alias n) (in_subtree-Below a c h) child),
      Below-channel cmd _
          (Below-trans _ n (parent_alias n) under_n (inr (last_word n, child_of-parent_alias n d))),
      not_under cmd c d dc,
    )

-- A refused command is answered by one nack with the reason, to a sender of a known class, nothing is
-- broadcast, and the tables stay.
pub refused-nacked :
    (w : World) (c : Config) (reason_text : Refusal → Text) (class alias chash : Text)
    (cmd : Command) (t : Tables) (r : Refusal)
    → ((apply w c cmd t).0 ≡ err (create_error r)) ⊎ ((apply w c cmd t).0 ≡ err (reparent_error r))
    → apply_and_broadcast w c reason_text
        (record { from_class = some class; from_alias = alias })
        cmd
        chash
        t
      ≡ (
        ok (
            direct class alias (nack (record { command_hash = chash; reason = reason_text r }))
            ∷ []),
        t,
      )
unfolding apply_and_broadcast reply
refused-nacked w c reason_text class alias chash cmd t r (inl e) =
    rw (e, apply-atomic w c cmd t _ e) refl
refused-nacked w c reason_text class alias chash cmd t r (inr e) =
    rw (e, apply-atomic w c cmd t _ e) refl

one_more :
    (root : Text) (r : Result GNodeForest) (rest : List Outgoing × Option Error) (roots : List Text)
    → (rest.1 ≡ none → channels rest.0 ≡ roots)
    → (snapshot_then root r rest).1 ≡ none
    → channels (snapshot_then root r rest).0 ≡ root ∷ roots
one_more root (ok forest) (sent, e) roots k h = ap (λ x. root ∷ x) (k h)
one_more root (err e) rest roots k h = ground arith

snapshot_channels :
    (w : World) (roots : List Text) (t : Tables)
    → (broadcast_snapshots w roots t).1 ≡ none
    → channels (broadcast_snapshots w roots t).0 ≡ roots
unfolding broadcast_snapshots
snapshot_channels w [] t h = refl
snapshot_channels w (root ∷ roots) t h =
    one_more root (get_forest w (root ∷ []) t).0 (broadcast_snapshots w roots t) roots
      (λ e. snapshot_channels w roots t e) h

-- A round of snapshots that no exception ends sends one for each forest root, on the root's channel,
-- in the order of the roots.
pub broadcast_all_snapshots-channels :
    (w : World) (t : Tables)
    → (broadcast_all_snapshots w t).1 ≡ none
    → channels (broadcast_all_snapshots w t).0 ≡ forest_roots t
unfolding broadcast_all_snapshots
broadcast_all_snapshots-channels w t h = snapshot_channels w (forest_roots t) t h

-- Until a tick is stopped the snapshot loop goes on, whatever exception has ended an earlier round.
pub snapshot_loop-append :
    (w : World) (ticks later : List Tick)
    → All (λ (k : Tick). k.stopped ≡ false) ticks
    → snapshot_loop w (ticks ++ later) ≡ snapshot_loop w ticks ++ snapshot_loop w later
unfolding snapshot_loop
snapshot_loop-append w [] later h = refl
snapshot_loop-append w (tick ∷ ticks) later (e, h) =
    rw (e, snapshot_loop-append w ticks later h)
      (sym (append_assoc (tick_sends w tick) (snapshot_loop w ticks) (snapshot_loop w later)))
