-- ===== src/Lib.antt =====
-- The Grid Node Registry (src/gnr): the authority for the GNodes of one universe. This library models
-- its core, the tables, the audit of the whole registry, the ledger of aliases and the two write
-- commands, and proves what the commands keep.
--
-- The parts and the files:
--
-- Prelude: shared types, equality and list lemmas. A Python text is a list of code points.
-- Text: the operations of `str` on aliases, and SQL's LIKE (Text/Like).
-- Alias: the pure functions on aliases of src/gnr/db/validate.py and src/gnr/db/authority.py; Alias/Paths
-- and Alias/Rewrite hold their laws.
-- Sema: src/gnr/sema, the formats (Sema/Format, over the regular expressions of Sema/Regex), the enums
-- and the message types with their axioms (Sema/GNode, Sema/Messages). A validator returns `none` where
-- pydantic accepts and the first failure where it raises.
-- Sema/Casing and Sema/Codec: the casing of keys and the decoding of src/gnr/sema/base.py and
-- src/gnr/sema/codec.py; the classes with their validation and upgrades are the record `Vocabulary`, and
-- Sema/Codec/Discovery is the filling of the two registries. Sema/Wire is `to_dict` of the types of
-- src/gnr/sema/types and Sema/Wire/Parse their `model_validate`, over the fields of Sema/Fields;
-- Sema/Runtime is the default codec with these classes. Sema/Roundtrip: src/gnr/sema/roundtrip.py.
-- Lifecycle: src/gnr/db/lifecycle.py, the legal changes of a status and of a base class.
-- Registry/Models: src/gnr/db/models.py, each table a list of rows. The timestamps are left out.
-- Registry/Validate: src/gnr/db/validate.py, `validate_registry` and its five checks. Its dict from
-- aliases to nodes is the list of rows, since the column `alias` is unique; Registry/Validate/Spec states
-- what the checks mean.
-- Registry/Session: a transaction as a function from the tables to a result and the tables, where a raise
-- keeps what was written until `transaction` rolls it back. The unique columns and foreign keys raise an
-- integrity error. Registry/Ledger: `claim_alias` of src/gnr/db/alias_ledger.py.
-- Authority: `PostgresAuthority` of src/gnr/db/authority.py, its reads; Authority/Create is `apply_create`,
-- Authority/Reparent is `apply_reparent` with `_rewrite_prefix`, statement by statement. The command
-- classes come from Sema/Messages, the guards and writes from the session, the audit from
-- Registry/Validate. Registry/Growth, Registry/Keeps, Registry/Reads and Registry/Consistency carry the
-- logic of sessions; the modules under Authority apply it to each statement.
-- Service: src/gnr/gnr_rabbit.py, what `apply_and_broadcast` sends for a command and what the rounds of
-- snapshots send, as lists of messages; Service/Threads is the lock between its two threads, as a step
-- relation on their interleavings.
-- Rebuild: src/gnr/rebuild.py, the names and the order of captured objects; Rebuild/Replay is the replay
-- of their payloads with its checkpoints, Rebuild/Eventstore the listing of a bucket. A payload is what
-- the JSON library and the codec make of the bytes of an object. Rebuild/Stream says as a step relation
-- what the ear captures of a registry at work, Rebuild/Restore relates it to the replay, and
-- Rebuild/Checkpoints says what the replay reports of a broadcast.
-- Api: src/gnr/api.py, the answers of its three read routes, and the links of its document (Api/OpenApi).
-- DevUniverse: src/gnr/dev_universe.py, the nodes and their seed. Cli: src/gnr/cli.py, what the console
-- commands decide; Cli/Wizard is the wizard of `gnr create`, Cli/Operator its publisher and its course,
-- Cli/Operator/Outcome puts it together with the service and the API, and Cli/Operator/Network with the
-- codec (Service/Reading) as well.
-- Migrations: src/alembic/versions, the two revisions as operations on a schema, and the schema that
-- src/gnr/db/models.py declares (Migrations/Mirror).
-- Ids: src/gnr/ids.py. DisplayName: src/gnr/display_name.py. Settings: the check of the universe in
-- src/gnr/settings.py. The last two are for ASCII text.
-- Tests: a small registry, runs of the commands on it, and the theorems at concrete data.
--
-- Every function is total and structural. Only the loop over the days of a bucket runs on fuel, one
-- round for each day, which its result shows to be enough; `to_latest` recurs on the steps that the code
-- allows. What the code calls and does not implement is a parameter, most of it in the record `World` of
-- Authority: SHA-256, the text encoding, the bytes of a command, the collation of a text column and the
-- clock. Commands run one at a time, as the service handles a message
-- under a lock. A query without ORDER BY gives the rows in the order of their insertion, which a database
-- does not promise: where a broadcast is made of such rows, its order in the model is one of the possible.
--
-- Not modelled: the message bus of src/gnr/gnr_rabbit.py, a command in an envelope of the other type, the
-- local cache directory of src/gnr/rebuild.py, the other settings, the routing of src/gnr/api.py, the
-- prints and the argument parser of the command line, and the run of the migrations (src/alembic/env.py).
pub mod Prelude
pub mod Text
pub mod Alias
pub mod Sema
pub mod Lifecycle
pub mod Registry
pub mod Authority
pub mod Service
pub mod Api
pub mod Rebuild
pub mod Ids
pub mod DisplayName
pub mod Settings
pub mod DevUniverse
pub mod Cli
pub mod Migrations
pub mod Tests
