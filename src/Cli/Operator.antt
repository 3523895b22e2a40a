-- ===== src/Cli/Operator.antt =====
-- `gnr create` of src/gnr/cli.py: the publisher, which keeps the verdicts, and what `_run_create` does
-- with the answers of the API, the operator and the registry. The broker and the API are the messages
-- that arrive and the results of the polls.
pub mod Outcome
pub mod Network
use grid_node_registry.Prelude.{
  ℕ, zero, suc, Bool, true, false, not, ◌||◌, Option, none, some, List, [], ◌∷◌, Text, text_eq,
  ◌==◌, if◌then◌else◌,
}
use grid_node_registry.Sema.GNode.{GNodeGt, Invalid, validate}
use grid_node_registry.Sema.Messages.{GNodeCreateCmd, validate_create}
use grid_node_registry.Authority.{World}
use grid_node_registry.Service.{Verdict, ack, nack, Outgoing, topology, direct}
use grid_node_registry.Cli.{CreateArgs, created_node}

abbrev pub Verdicts : Type 0
Verdicts = List (Text × Verdict)

abbrev hash_in : Verdict → Text
hash_in (ack a) = a.command_hash
hash_in (nack a) = a.command_hash

-- `_OperatorPublisher.process_message`: a verdict is kept under its hash; the newest one counts.
unfoldable pub note_message : Outgoing → Verdicts → Verdicts
note_message (topology channel forest) verdicts = verdicts
note_message (direct class alias verdict) verdicts = (hash_in verdict, verdict) ∷ verdicts

unfoldable pub note_messages : List Outgoing → Verdicts → Verdicts
unfolding note_message
note_messages [] verdicts = verdicts
note_messages (m ∷ ms) verdicts = note_messages ms (note_message m verdicts)

-- pub.verdicts.get(chash)
unfoldable pub verdict_of : Text → Verdicts → Option Verdict
unfolding text_eq
verdict_of chash [] = none
verdict_of chash ((hash, verdict) ∷ verdicts) =
    if hash == chash then some verdict else verdict_of chash verdicts

pub data CreateExit : Type 0 where
  already_exists : GNodeGt → CreateExit
  invalid_node invalid_command : Invalid → CreateExit
  aborted unreachable registered not_visible : CreateExit
  refused : (reason : Text) → CreateExit

-- The polls of the read API, at most so many.
unfoldable pub visible_within : ℕ → List Bool → Bool
visible_within zero polls = false
visible_within (suc n) [] = false
visible_within (suc n) (found ∷ polls) = found || visible_within n polls

unfoldable pub exit_of : Option Verdict → List Bool → CreateExit
unfolding visible_within
exit_of (some (nack a)) polls = refused a.reason
exit_of verdict polls = if visible_within 40 polls then registered else not_visible

-- What `_run_create` meets: the API's answer for the alias, the operator's two inputs, whether the
-- broker was reached, the messages that come in until the deadline, and the polls.
pub record Operation : Type 0 where
  pub existing : Option GNodeGt
  pub confirmation : Text
  pub proof : Text
  pub consuming : Bool
  pub messages : List Outgoing
  pub polls : List Bool

-- proof or None
abbrev pub proof_or_none : Text → Option Text
proof_or_none [] = none
proof_or_none (c ∷ s) = some (c ∷ s)

abbrev pub command_of : GNodeGt → Text → GNodeCreateCmd
command_of node proof = record { new_node = node; proof = proof_or_none proof }

-- A pydantic constructor raises, or the work goes on.
abbrev pub unless_invalid : Option Invalid → (Invalid → CreateExit) → CreateExit → CreateExit
unless_invalid (some e) exit work = exit e
unless_invalid none exit work = work

abbrev pub unless_existing : Option GNodeGt → CreateExit → CreateExit
unless_existing (some node) work = already_exists node
unless_existing none work = work

module _ (w : World) (o : Operation) where
  unfoldable pub publish : GNodeCreateCmd → CreateExit
  unfolding exit_of verdict_of note_messages
  publish cmd = unless_invalid (validate_create cmd) invalid_command (
      exit_of (verdict_of (w.sha256_hex (w.create_bytes cmd)) (note_messages o.messages []))
        o.polls)

  unfoldable pub confirm_and_publish : GNodeGt → CreateExit
  unfolding text_eq
  confirm_and_publish node =
      if not (o.confirmation == [])
      then aborted
      else if not o.consuming
      then unreachable
      else publish (command_of node o.proof)

  -- `fresh_id` is a new uuid4.
  unfoldable pub run_create : (fresh_id : Text) → CreateArgs → CreateExit
  run_create fresh_id args = unless_existing o.existing (
      unless_invalid (validate (created_node fresh_id args)) invalid_node
        (confirm_and_publish (created_node fresh_id args)))
