-- ===== src/Cli/Rebuilding.antt =====
-- `gnr rebuild` (src/gnr/cli.py) on a registry that holds rows.
use grid_node_registry.Prelude.{
  ℕ, suc, ◌≡◌, ◌≢◌, refl, sym, ap, subst, arith, Bool, true, false, not, ◌&&◌, List, [], ◌∷◌, Text,
  text_eq, nat_eq, ◌==◌, length,
}
use grid_node_registry.Registry.Models.{Tables, GNodeSql, empty_tables}
use grid_node_registry.Registry.Session.{Result, ok, err, pure, ◌>>=◌}
use grid_node_registry.Authority.{World}
use grid_node_registry.Authority.Consistency.{IsRegistry}
use grid_node_registry.Rebuild.{ObjectStore, RebuildReport, is_ok}
use grid_node_registry.Rebuild.Replay.{Payload, rebuild}
use grid_node_registry.Rebuild.Report.{rebuild-IsRegistry}
use grid_node_registry.Cli.{
  RebuildExit, occupied, finished, wipe, rebuild_and_audit, rebuild_unless_occupied, run_rebuild,
}

and_true : (b : Bool) → (b && true) ≡ b
and_true b = ground arith

positive : (n : ℕ) → (suc n == 0) ≡ false
positive n = ground arith

and_false : (b : Bool) → (b && false) ≡ false
and_false b = ground arith

module _ (w : World) (clock : ℕ → ℕ) (decode : List ℕ → Payload) (universe : Text)
    (store : ObjectStore) where
  abbrev pub Audited : Result RebuildReport × Tables → Result RebuildExit × Tables → Type 0
  Audited (ok report, u) r = r ≡ (ok (finished report [] (is_ok report)), u)
  Audited (err e, u) r = r ≡ (err e, u)

  after_rebuild :
      (r : Result RebuildReport × Tables)
      → IsRegistry universe r.1
      → rebuild w clock decode universe store empty_tables ≡ r
      → Audited r (rebuild_and_audit w clock decode universe store empty_tables)
  unfolding rebuild_and_audit ◌>>=◌
  after_rebuild (ok report, u) h e =
      rw (e, h.clean) (ap (λ b. (ok (finished report [] b), u)) (and_true (is_ok report)))
  after_rebuild (err x, u) h e = rw e refl

  wiped :
      (t : Tables) (n : ℕ)
      → rebuild_unless_occupied w clock decode universe store true n t
        ≡ rebuild_and_audit w clock decode universe store empty_tables
  unfolding rebuild_unless_occupied ◌>>=◌ wipe
  wiped t n = rw (and_false (not (n == 0))) refl

  kept :
      (t : Tables) (nodes : List GNodeSql)
      → nodes ≢ []
      → rebuild_unless_occupied w clock decode universe store false (length nodes) t
        ≡ (ok (occupied (length nodes)), t)
  unfolding rebuild_unless_occupied pure
  kept t [] h = absurd (h refl)
  kept t (n ∷ nodes) h = rw (positive (length nodes)) refl

  pub run_rebuild-wipe :
      (t : Tables)
      → (t.g_nodes ≢ []
          → run_rebuild w clock decode universe store false t
            ≡ (ok (occupied (length t.g_nodes)), t))
        × Audited
            (rebuild w clock decode universe store empty_tables)
            (run_rebuild w clock decode universe store true t)
        × IsRegistry universe (rebuild w clock decode universe store empty_tables).1
  unfolding run_rebuild ◌>>=◌
  run_rebuild-wipe t =
      let h = rebuild-IsRegistry w clock decode universe store in
      let r = rebuild w clock decode universe store empty_tables in
      (
        kept t t.g_nodes,
        subst (Audited r) (sym (wiped t (length t.g_nodes))) (after_rebuild r h refl),
        h,
      )
