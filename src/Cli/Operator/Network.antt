-- ===== src/Cli/Operator/Network.antt =====
-- `gnr create` of src/gnr/cli.py, its command encoded by the classes of src/gnr/sema, and the service of
-- src/gnr/gnr_rabbit.py that decodes it. The library for JSON is a parameter.
use grid_node_registry.Prelude.{
  ℕ, ◌≡◌, refl, Bool, Option, none, some, List, Text, option_eq, text_eq,
}
use grid_node_registry.Sema.Casing.{Json}
use grid_node_registry.Sema.Messages.{GNodeCreateCmd, validate_create}
use grid_node_registry.Sema.Wire.{g_node_create_cmd, to_dict}
use grid_node_registry.Registry.Models.{Tables}
use grid_node_registry.Registry.Session.{ok, Refusal}
use grid_node_registry.Authority.{World, Config}
use grid_node_registry.Authority.Consistency.{IsRegistry}
use grid_node_registry.Authority.Success.{IsCreatable}
use grid_node_registry.Authority.Reachability.{create}
use grid_node_registry.Service.{Outgoing}
use grid_node_registry.Service.Reading.{read_command, read_command-to_dict}
use grid_node_registry.Cli.{CreateArgs, created_node}
use grid_node_registry.Cli.Operator.{registered, run_create, command_of}
use grid_node_registry.Cli.Operator.Outcome.{served, operation, run_create-registers}

module _ (w : World) (c : Config) (t : Tables) (fresh_id proof : Text) (args : CreateArgs)
    (reason_text : Refusal → Text) (class alias : Text) (is_alpha : ℕ → Bool)
    (int : Text → Option ℕ) (loads : List ℕ → Option Json) where
  abbrev cmd : GNodeCreateCmd
  cmd = command_of (created_node fresh_id args) proof

  -- No node that `gnr create` makes has a location.
  locationless : validate_create cmd ≡ none
  unfolding validate_create created_node
  locationless = refl

  -- Where JSON gives back the dict of the command that `gnr create` sends, the registry can apply the
  -- command, the operator has confirmed it, the broker is reached, and the replies of the service and
  -- its API arrive, `gnr create` ends with its node registered.
  pub run_create-decoded :
      (sent : List Outgoing) (later : List Bool)
      → IsRegistry c.universe t
      → IsCreatable w c cmd t
      → loads (w.create_bytes cmd) ≡ some (to_dict (g_node_create_cmd cmd))
      → (served w c t fresh_id proof args reason_text
          (read_command is_alpha int loads)
          class
          alias).0
        ≡ ok sent
      → run_create w
          (operation w c t fresh_id proof args reason_text
            (read_command is_alpha int loads)
            class
            alias
            sent
            later)
          fresh_id
          args
        ≡ registered
  run_create-decoded sent later h k l e =
      run_create-registers w c t fresh_id proof args reason_text (read_command is_alpha int loads)
        class alias sent later h k
        (read_command-to_dict is_alpha int loads (create _) _ (k.valid, locationless) l) e
