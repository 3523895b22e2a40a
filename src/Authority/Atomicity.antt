-- ===== src/Authority/Atomicity.antt =====
-- The proof gate and the transaction of the mutations of src/gnr/db/authority.py.
use grid_node_registry.Prelude.{◌≡◌, ◌≢◌, refl, arith, Option, none, some, Text, text_eq}
use grid_node_registry.Sema.Messages.{GNodeCreateCmd, GNodeReparentCmd}
use grid_node_registry.Registry.Models.{Tables}
use grid_node_registry.Registry.Session.{
  err, Error, Refusal, pure, raise, raise_if, ◌>>=◌, create_error, reparent_error, bad_proof,
}
use grid_node_registry.Registry.Reads.{IsAtomic, IsAtomic-after_read, transaction-IsAtomic}
use grid_node_registry.Authority.{World, Config, check_proof}
use grid_node_registry.Authority.Create.{apply_create}
use grid_node_registry.Authority.Reparent.{apply_reparent}
use grid_node_registry.Authority.Reads.{check_proof-Reads}

module _ (w : World) (c : Config) where
  pub apply_create-IsAtomic : (cmd : GNodeCreateCmd) → IsAtomic (apply_create w c cmd)
  unfolding apply_create
  apply_create-IsAtomic cmd =
      IsAtomic-after_read _ _ (check_proof-Reads w c _ _) λ _. transaction-IsAtomic _

  pub apply_reparent-IsAtomic : (cmd : GNodeReparentCmd) → IsAtomic (apply_reparent w c cmd)
  unfolding apply_reparent
  apply_reparent-IsAtomic cmd =
      IsAtomic-after_read _ _ (check_proof-Reads w c _ _) λ _. transaction-IsAtomic _

  -- ---- the proof gate

  -- The proof is missing, or its digest is another.
  abbrev pub Fails : Text → Option Text → Type 0
  Fails expected proof = (p : Text) → proof ≡ some p → w.sha256_hex (w.encode p) ≢ expected

  gate_refuses :
      (expected : Text) (proof : Option Text) (error : Refusal → Error) (t : Tables)
      → c.write_proof_sha256 ≡ some expected
      → Fails expected proof
      → check_proof w c proof error t ≡ (err (error bad_proof), t)
  unfolding check_proof raise_if raise pure
  gate_refuses expected none error t e f = rw e refl
  gate_refuses expected (some p) error t e f = rw e (ground (arith, f p refl))

  -- Where a digest is configured, a command whose proof is missing or has another digest is refused with
  -- the same error on any tables, logged or not, and writes nothing.
  pub bad_proof-refused :
      (expected : Text) (create : GNodeCreateCmd) (reparent : GNodeReparentCmd) (t : Tables)
      → c.write_proof_sha256 ≡ some expected
      → Fails expected create.proof
      → Fails expected reparent.proof
      → (apply_create w c create t ≡ (err (create_error bad_proof), t))
        × (apply_reparent w c reparent t ≡ (err (reparent_error bad_proof), t))
  unfolding apply_create apply_reparent ◌>>=◌
  bad_proof-refused expected create reparent t e f g = (
    rw (gate_refuses expected create.proof create_error t e f) refl,
    rw (gate_refuses expected reparent.proof reparent_error t e g) refl,
  )
