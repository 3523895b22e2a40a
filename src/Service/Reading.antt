-- ===== src/Service/Reading.antt =====
-- How `GnrRabbit.process_message` of src/gnr/gnr_rabbit.py reads a body: `json.loads`, a parameter, and
-- `default_codec.from_dict`.
use grid_node_registry.Prelude.{ℕ, Bool, true, ◌≡◌, refl, Option, none, some, List, Text}
use grid_node_registry.Sema.Casing.{Json}
use grid_node_registry.Sema.Codec.{Decoded, ok, strict, SemaValue, instance_of, from_dict}
use grid_node_registry.Sema.Wire.{Message, g_node_create_cmd, g_node_reparent_cmd, to_dict}
use grid_node_registry.Sema.Runtime.{default_codec}
use grid_node_registry.Sema.Runtime.Closed.{IsValid, decode-to_dict}
use grid_node_registry.Authority.Reachability.{Command, create, reparent}

-- The commands among the decoded values; the authority fails on any other.
abbrev pub command_in : Decoded (SemaValue Message) → Option Command
command_in (ok (instance_of (g_node_create_cmd cmd))) = some (create cmd)
command_in (ok (instance_of (g_node_reparent_cmd cmd))) = some (reparent cmd)
command_in _ = none

abbrev pub message_of : Command → Message
message_of (create cmd) = g_node_create_cmd cmd
message_of (reparent cmd) = g_node_reparent_cmd cmd

module _ (is_alpha : ℕ → Bool) (int : Text → Option ℕ) (loads : List ℕ → Option Json) where
  abbrev pub decoded_command : Option Json → Option Command
  unfolding default_codec from_dict
  decoded_command none = none
  decoded_command (some d) = command_in (from_dict (default_codec is_alpha int) d strict true none)

  unfoldable pub read_command : List ℕ → Option Command
  unfolding default_codec from_dict
  read_command body = decoded_command (loads body)

  -- The body of a valid command is read as the command.
  pub read_command-to_dict :
      (cmd : Command) (body : List ℕ)
      → IsValid (message_of cmd)
      → loads body ≡ some (to_dict (message_of cmd))
      → read_command body ≡ some cmd
  unfolding read_command from_dict
  read_command-to_dict (create cmd) body v e =
      rw (e, decode-to_dict is_alpha int strict true (g_node_create_cmd cmd) v) refl
  read_command-to_dict (reparent cmd) body v e =
      rw (e, decode-to_dict is_alpha int strict true (g_node_reparent_cmd cmd) v) refl
