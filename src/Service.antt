-- ===== src/Service.antt =====
-- src/gnr/gnr_rabbit.py: `GnrRabbit`, what it sends for a command and for a snapshot. The bus that
-- carries the messages is not modelled: a handler returns what it sends, in order. The type name of
-- an envelope is taken to be that of the command in its body.
pub mod Answers
pub mod Reading
pub mod Threads
use grid_node_registry.Prelude.{
  ℕ, not, contains, text_eq, Bool, Option, none, some, List, [], ◌∷◌, ◌++◌, Text, if◌then◌else◌,
}
use grid_node_registry.Alias.{parent_alias, is_forest_root}
use grid_node_registry.Sema.Messages.{GNodeForest, GNodeCmdAck, GNodeCmdNack}
use grid_node_registry.Registry.Models.{Tables}
use grid_node_registry.Registry.Session.{
  Result, ok, err, Error, Refusal, create_error, reparent_error, undecodable,
}
use grid_node_registry.Authority.{World, Config, forest_roots, get_forest}
use grid_node_registry.Authority.Create.{create_cmd}
use grid_node_registry.Authority.Reparent.{reparent_cmd}
use grid_node_registry.Authority.Reachability.{Command, create, reparent, apply}

-- The sender of a message; the class is missing where its token is unknown.
pub record RoutingEnvelope : Type 0 where
  pub from_class : Option Text
  pub from_alias : Text

pub data Verdict : Type 0 where
  ack : GNodeCmdAck → Verdict
  nack : GNodeCmdNack → Verdict

pub data Outgoing : Type 0 where
  topology : (radio_channel : Text) → GNodeForest → Outgoing
  direct : (to_class to_alias : Text) → Verdict → Outgoing

-- The alias that the audience of a command is bound to.
unfoldable pub radio_channel : Command → Text
radio_channel (create cmd) =
    if is_forest_root cmd.new_node.alias
    then cmd.new_node.alias
    else parent_alias cmd.new_node.alias
radio_channel (reparent cmd) = parent_alias cmd.new_node.alias

abbrev addressed : Option Text → Text → Verdict → List Outgoing
addressed none alias verdict = []
addressed (some class) alias verdict = direct class alias verdict ∷ []

unfoldable pub reply : RoutingEnvelope → Verdict → List Outgoing
reply envelope verdict = addressed envelope.from_class envelope.from_alias verdict

-- `reason_text` is the text of the exception.
unfoldable pub answer :
    (Refusal → Text)
    → RoutingEnvelope
    → Command
    → Text
    → Result GNodeForest
    → Result (List Outgoing)
answer reason_text envelope cmd chash (ok forest) =
    ok
      (topology (radio_channel cmd) forest ∷ reply envelope (ack (record { command_hash = chash })))
answer reason_text envelope cmd chash (err (create_error r)) =
    ok (reply envelope (nack (record { command_hash = chash; reason = reason_text r })))
answer reason_text envelope cmd chash (err (reparent_error r)) =
    ok (reply envelope (nack (record { command_hash = chash; reason = reason_text r })))
answer reason_text envelope cmd chash (err e) = err e

-- What is sent, or the exception that escapes the handler.
unfoldable pub apply_and_broadcast :
    World
    → Config
    → (Refusal → Text)
    → RoutingEnvelope
    → Command
    → Text
    → Tables
    → Result (List Outgoing) × Tables
unfolding answer
apply_and_broadcast w c reason_text envelope cmd chash t =
    let (outcome, u) = apply w c cmd t in (answer reason_text envelope cmd chash outcome, u)

abbrev pub snapshot_then :
    Text → Result GNodeForest → List Outgoing × Option Error → List Outgoing × Option Error
snapshot_then root (ok forest) (sent, e) = (topology root forest ∷ sent, e)
snapshot_then root (err e) rest = ([], some e)

-- One snapshot for each root; an exception ends the loop, and the earlier ones are sent.
unfoldable pub broadcast_snapshots : World → List Text → Tables → List Outgoing × Option Error
broadcast_snapshots w [] t = ([], none)
broadcast_snapshots w (root ∷ roots) t =
    snapshot_then root (get_forest w (root ∷ []) t).0 (broadcast_snapshots w roots t)

unfoldable pub broadcast_all_snapshots : World → Tables → List Outgoing × Option Error
broadcast_all_snapshots w t = broadcast_snapshots w (forest_roots t) t

-- A tick of the snapshot loop: whether the service is consuming, the tables it finds, and whether the
-- wait after it was ended by the stop.
pub record Tick : Type 0 where
  pub consuming : Bool
  pub tables : Tables
  pub stopped : Bool

-- What a tick sends; an exception is logged.
unfoldable pub tick_sends : World → Tick → List Outgoing
tick_sends w tick = if tick.consuming then (broadcast_all_snapshots w tick.tables).0 else []

unfoldable pub snapshot_loop : World → List Tick → List Outgoing
unfolding tick_sends
snapshot_loop w [] = []
snapshot_loop w (tick ∷ ticks) =
    let rest = snapshot_loop w ticks in tick_sends w tick ++ (if tick.stopped then [] else rest)

-- What the ticks send; `stopped` is the result of the wait for the startup delay.
unfoldable pub run_snapshots : World → (stopped : Bool) → List Tick → List Outgoing
unfolding snapshot_loop
run_snapshots w stopped ticks = if stopped then [] else snapshot_loop w ticks

-- envelope.type_name in (CREATE_CMD, REPARENT_CMD)
unfoldable pub is_command_type : Text → Bool
unfolding text_eq
is_command_type type_name = contains (create_cmd ∷ reparent_cmd ∷ []) type_name

-- `read` is what `json.loads` and the codec make of a body, `none` where they raise; the hash is that
-- of the bytes as they came.
unfoldable pub process_message :
    World
    → Config
    → (Refusal → Text)
    → (List ℕ → Option Command)
    → RoutingEnvelope
    → (type_name : Text) → (body : List ℕ) → Tables
    → Result (List Outgoing) × Tables
unfolding is_command_type
process_message w c reason_text read envelope type_name body t =
    if not (is_command_type type_name) then (ok [], t) else elim (read body) [
      | none ↦ (err undecodable, t)
      | some cmd ↦ apply_and_broadcast w c reason_text envelope cmd (w.sha256_hex body) t
    ]
