-- ===== src/Authority/Replay.antt =====
-- The command log of src/gnr/db/authority.py, and commands that are sent again.
use grid_node_registry.Prelude.{
  ◌≡◌, refl, sym, ap, ◌∙◌, subst, arith, false, Option, none, some, Option-cases, inl, inr, List,
  Text, text_eq, ◌==◌, ==→≡, In, In-append_right, find?-some, find?-none,
}
use grid_node_registry.Sema.Messages.{GNodeForest, GNodeCreateCmd, GNodeReparentCmd}
use grid_node_registry.Registry.Models.{Tables, CommandLogSql}
use grid_node_registry.Registry.Session.{
  Result, ok, err, Session, gets, ◌>>=◌, continue, settle, transaction, get_command, add_command,
}
use grid_node_registry.Registry.Keeps.{
  After, Keeps, Keeps-pure, Keeps-bind, Keeps-After-gets, Keeps-after_guard, Keeps-modify,
  Keeps-transaction,
}
use grid_node_registry.Registry.Reads.{Reads, Reads-Keeps}
use grid_node_registry.Registry.Growth.{Grows}
use grid_node_registry.Authority.{World, Config, get_forest}
use grid_node_registry.Authority.Create.{apply_create, create_unless_logged, create_writes}
use grid_node_registry.Authority.Reparent.{apply_reparent, reparent_unless_logged, reparent_writes}
use grid_node_registry.Authority.Reads.{
  plain_reads, row_to_gt-Reads, check_proof-Reads, get_forest-Reads,
}
use grid_node_registry.Authority.Reachability.{Command, create, reparent, apply, Reach, Reach-Grows}

pub record IsLogged (chash : Text) (t : Tables) : Type 0 where
  pub row : CommandLogSql
  pub logged : In row t.command_log
  pub hashed : row.command_hash ≡ chash

-- What a command is logged under.
unfoldable pub hash_of : World → Command → Text
hash_of w (create cmd) = w.sha256_hex (w.create_bytes cmd)
hash_of w (reparent cmd) = w.sha256_hex (w.reparent_bytes cmd)

abbrev Anything : Tables → Type 0
Anything t = Unit

Keeps-Anything : {A : Type 0} (m : Session A) → Keeps Anything Anything m
Keeps-Anything m = record { at = λ t h. nothing (m t) }
  where
    nothing : {A : Type 0} (r : Result A × Tables) → After Anything r
    nothing (ok a, u) = tt
    nothing (err e, u) = tt

logs : (row : CommandLogSql) → Keeps Anything (IsLogged row.command_hash) (add_command row)
unfolding add_command
logs row = Keeps-after_guard _ _ _ (
    Keeps-modify _ λ t h. record {
      row = row;
      logged = In-append_right row t.command_log _ (inl refl);
      hashed = refl;
    })

found :
    (chash : Text) (t : Tables) (row : CommandLogSql)
    → get_command chash t ≡ some row
    → IsLogged chash t
unfolding get_command
found chash t row e =
    let (i, same) = find?-some (λ c. c.command_hash == chash) row t.command_log e in
    record { row = row; logged = i; hashed = ==→≡ _ _ same }

get_command_logged :
    (chash : Text) (t : Tables)
    → IsLogged chash t
    → (row : CommandLogSql) × (get_command chash t ≡ some row)
unfolding get_command
get_command_logged chash t h = elim (Option-cases (get_command chash t)) [
  | inl missing ↦ absurd (
      different (find?-none (λ c. c.command_hash == chash) h.row t.command_log missing h.logged)
        h.hashed)
  | inr found_row ↦ found_row
]
  where
    different : {x y : Text} → (x == y) ≡ false → x ≡ y → ⊥
    different e f = ground arith

-- A command whose write logs it is logged once it has run.
IsLogged-after :
    {A : Type 0} (chash : Text) (k : Option CommandLogSql → Session A)
    → Keeps Anything (IsLogged chash) (k none)
    → ((row : CommandLogSql) → Reads (k (some row)))
    → Keeps Anything (IsLogged chash) (gets (get_command chash) >>= k)
IsLogged-after chash k fresh replay = Keeps-After-gets _ k λ t h. cases t (get_command chash t) refl
  where
    cases :
        (t : Tables) (o : Option CommandLogSql)
        → get_command chash t ≡ o
        → After (IsLogged chash) (k o t)
    cases t none e = fresh.at t tt
    cases t (some row) e = (Reads-Keeps _ _ (replay row)).at t (found chash t row e)

module _ (w : World) (c : Config) where
  create_writes_logs :
      (cmd : GNodeCreateCmd)
      → Keeps Anything (IsLogged (hash_of w (create cmd))) (create_writes w c cmd)
  unfolding create_writes hash_of
  create_writes_logs cmd = Keeps-bind _ _ (Keeps-Anything _) λ _.
      Keeps-bind _ _ (Keeps-Anything _) λ _. Keeps-bind _ _ (Keeps-Anything _) λ vs.
        Keeps-bind _ _ (Keeps-Anything _)
          λ _. Keeps-bind _ _ (logs _) λ _. Reads-Keeps _ _ (search (plain_reads, row_to_gt-Reads))

  reparent_writes_logs :
      (cmd : GNodeReparentCmd)
      → Keeps Anything (IsLogged (hash_of w (reparent cmd))) (reparent_writes w c cmd)
  unfolding reparent_writes hash_of
  reparent_writes_logs cmd = Keeps-bind _ _ (Keeps-Anything _) λ _.
      Keeps-bind _ _ (Keeps-Anything _) λ _. Keeps-bind _ _ (Keeps-Anything _) λ updated.
        Keeps-bind _ _ (Keeps-Anything _) λ vs. Keeps-bind _ _ (Keeps-Anything _) λ _.
          Keeps-bind _ _ (Keeps-Anything _) λ edges. Keeps-bind _ _ (Keeps-Anything _) λ rows.
            Keeps-bind _ _ (Keeps-Anything _) λ nodes. Keeps-bind _ _ (Keeps-Anything _) λ edge_gts.
              Keeps-bind _ _ (Keeps-Anything _)
                λ broadcast. Keeps-bind _ _ (logs _) λ _. Keeps-pure _

  apply_logs : (cmd : Command) → Keeps Anything (IsLogged (hash_of w cmd)) (apply w c cmd)
  unfolding apply apply_create apply_reparent create_unless_logged reparent_unless_logged hash_of
  apply_logs (create cmd) = Keeps-bind _ _ (Keeps-Anything _) λ _. Keeps-transaction _ (
      IsLogged-after (hash_of w (create cmd)) (create_unless_logged w c cmd)
        (Keeps-bind _ _ (Keeps-Anything _) λ _. create_writes_logs cmd) λ row. get_forest-Reads w _)
  apply_logs (reparent cmd) = Keeps-bind _ _ (Keeps-Anything _) λ _. Keeps-transaction _ (
      IsLogged-after (hash_of w (reparent cmd)) (reparent_unless_logged w c cmd)
        (Keeps-bind _ _ (Keeps-Anything _) λ _. reparent_writes_logs cmd)
        λ row. get_forest-Reads w _)

succeeded :
    (Q : Tables → Type 0) (r : Result GNodeForest × Tables) (f : GNodeForest)
    → After Q r
    → r.0 ≡ ok f
    → Q r.1
succeeded Q (ok a, u) f h e = h
succeeded Q (err x, u) f h e = ground arith

-- ---- a logged command

read_then :
    {A B : Type 0} (f : A → Session B) (t : Tables) (r : Result A × Tables)
    → r.1 ≡ t
    → ((a : A) → (f a t).1 ≡ t)
    → (continue f r).1 ≡ t
read_then f t (ok a, u) e h = rw e (h a)
read_then f t (err x, u) e h = e

bind-Reads_at :
    {A B : Type 0} (m : Session A) (f : A → Session B) (t : Tables)
    → Reads m
    → ((a : A) → (f a t).1 ≡ t)
    → ((m >>= f) t).1 ≡ t
unfolding ◌>>=◌
bind-Reads_at m f t r h = read_then f t (m t) (r.at t) h

settles : {A : Type 0} (t : Tables) (r : Result A × Tables) → r.1 ≡ t → settle t r ≡ r
settles t (ok a, u) e = refl
settles t (err x, u) e = rw e refl

module _ (w : World) (c : Config) where
  -- In the transaction, a command that is logged is answered by `get_forest` at its alias.
  answer_logged :
      (cmd : Command) (k : Option CommandLogSql → Session GNodeForest) (roots : List Text)
      (t : Tables)
      → IsLogged (hash_of w cmd) t
      → ((row : CommandLogSql) → k (some row) ≡ get_forest w roots)
      → transaction (gets (get_command (hash_of w cmd)) >>= k) t ≡ get_forest w roots t
  unfolding transaction ◌>>=◌
  answer_logged cmd k roots t h same =
      let (row, e) = get_command_logged (hash_of w cmd) t h in
      rw (e, same row) (settles t (get_forest w roots t) ((get_forest-Reads w roots).at t))

  replayed : (cmd : Command) (t : Tables) → IsLogged (hash_of w cmd) t → (apply w c cmd t).1 ≡ t
  unfolding apply apply_create apply_reparent create_unless_logged reparent_unless_logged hash_of
  replayed (create cmd) t h = bind-Reads_at _ _ t (check_proof-Reads w c _ _) λ _.
      ap (λ r. r.1) (answer_logged (create cmd) (create_unless_logged w c cmd) _ t h λ row. refl)
      ∙ (get_forest-Reads w _).at t
  replayed (reparent cmd) t h = bind-Reads_at _ _ t (check_proof-Reads w c _ _) λ _.
      ap (λ r. r.1)
        (answer_logged (reparent cmd) (reparent_unless_logged w c cmd) _ t h λ row. refl)
      ∙ (get_forest-Reads w _).at t

grown_log : (chash : Text) (t u : Tables) → Grows t u → IsLogged chash t → IsLogged chash u
grown_log chash t u g h = record {
  row = h.row;
  logged = g.commands h.row h.logged;
  hashed = h.hashed;
}

-- A command that has succeeded once changes nothing when it is sent again, however many other commands
-- were served in between, and at whatever time, where its bytes have the same digest.
pub replay_unchanged :
    (w w' : World) (c : Config) (cmd : Command) (t u : Tables) (f : GNodeForest)
    → (apply w c cmd t).0 ≡ ok f
    → Reach c (apply w c cmd t).1 u
    → hash_of w' cmd ≡ hash_of w cmd
    → (apply w' c cmd u).1 ≡ u
replay_unchanged w w' c cmd t u f e r same =
    let logged =
      succeeded (IsLogged (hash_of w cmd)) (apply w c cmd t) f ((apply_logs w c cmd).at t tt) e in
    replayed w' c cmd u (
      subst (λ x. IsLogged x u) (sym same)
        (grown_log (hash_of w cmd) (apply w c cmd t).1 u (Reach-Grows c (apply w c cmd t).1 u r)
          logged))
