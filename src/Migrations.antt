-- ===== src/Migrations.antt =====
-- src/alembic/versions: the schema of the database and its two revisions, as lists of operations. An
-- operation does what Alembic and the database document, and stops the migration where they raise. Of
-- the rows only what the revisions read is kept: the ids of the positions, and what nodes carry.
pub mod Revisions
pub mod Mirror
pub mod Backfill
use grid_node_registry.Prelude.{
  ℕ, Bool, true, false, not, ◌&&◌, ◌||◌, Option, none, some, List, [], ◌∷◌, ◌++◌, map, Text,
  text_eq, ◌==◌, any, all, filter, contains, flat_map, if◌then◌else◌,
}

pub data ColumnType : Type 0 where
  string integer date_time large_binary : ColumnType
  enum : (name : Text) → (values : List Text) → ColumnType

pub record Column : Type 0 where
  pub name : Text
  pub type_ : ColumnType
  pub nullable : Bool
  pub server_default : Option Text

pub record ForeignKey : Type 0 where
  pub constraint : Option Text
  pub columns : List Text
  pub target : Text
  pub target_columns : List Text

pub record Index : Type 0 where
  pub name : Text
  pub columns : List Text
  pub unique : Bool

pub record Table : Type 0 where
  pub name : Text
  pub columns : List Column
  pub primary_key : List Text
  pub foreign_keys : List ForeignKey
  pub unique_constraints : List (Text × List Text)
  pub indexes : List Index

-- `enums` are the enumeration types, which are objects of their own.
pub record Database : Type 0 where
  pub tables : List Table
  pub enums : List Text
  pub positions : List Text
  pub carried : List (Option Text)

pub data Operation : Type 0 where
  create_table : Table → Operation
  drop_table : Text → Operation
  create_index : (table : Text) → Index → Operation
  drop_index : (table : Text) → Text → Operation
  add_column : (table : Text) → Column → Operation
  drop_column : (table : Text) → Text → Operation
  create_foreign_key : (table : Text) → ForeignKey → Operation
  drop_constraint : (table : Text) → Text → Operation
  insert_carried : Operation

abbrev enum_of : ColumnType → List Text
enum_of (enum name values) = name ∷ []
enum_of _ = []

abbrev pub enums_in : Table → List Text
enums_in t = flat_map (λ (c : Column). enum_of c.type_) t.columns

unfoldable pub has_table : Text → List Table → Bool
unfolding text_eq
has_table name tables = any (λ t. t.name == name) tables

-- No foreign key of another table points at it.
unfoldable pub is_target : Text → List Table → Bool
unfolding text_eq
is_target name tables =
    any
      (λ (t : Table).
        not (t.name == name) && any (λ (k : ForeignKey). k.target == name) t.foreign_keys)
      tables

abbrev after_table : Table → Option (List Table) → Option (List Table)
after_table t none = none
after_table t (some rest) = some (t ∷ rest)

abbrev changed : List Table → Option Table → Option (List Table)
changed rest none = none
changed rest (some t) = some (t ∷ rest)

-- The table of the name, changed; none where there is no such table, or it cannot be changed.
unfoldable pub alter : Text → (Table → Option Table) → List Table → Option (List Table)
unfolding text_eq
alter name f [] = none
alter name f (t ∷ ts) =
    let rest = alter name f ts in if t.name == name then changed ts (f t) else after_table t rest

abbrev with_tables : Database → Option (List Table) → Option Database
with_tables d none = none
with_tables d (some tables) = some (record d { tables = tables })

-- SELECT DISTINCT … WHERE position_point_id IS NOT NULL AND NOT EXISTS (…)
unfoldable pub missing : List Text → List (Option Text) → List Text
unfolding text_eq
missing ids [] = []
missing ids (none ∷ carried) = missing ids carried
missing ids (some id ∷ carried) =
    if contains ids id then missing ids carried else id ∷ missing (id ∷ ids) carried

-- A row that carries an id refers to a row with it.
abbrev pub is_known : List Text → Option Text → Bool
unfolding text_eq
is_known ids none = true
is_known ids (some id) = contains ids id

abbrev is_named : Text → Option Text → Bool
unfolding text_eq
is_named name none = false
is_named name (some other) = other == name

unfoldable pub run_operation : Operation → Database → Option Database
unfolding text_eq has_table is_target alter missing
run_operation (create_table t) d =
    if has_table t.name d.tables
      || any (contains d.enums) (enums_in t)
      || not (all (λ (k : ForeignKey). has_table k.target d.tables) t.foreign_keys)
    then none
    else some (record d { tables = d.tables ++ t ∷ []; enums = d.enums ++ enums_in t })
run_operation (drop_table name) d =
    if not (has_table name d.tables) || is_target name d.tables
    then none
    else some (record d { tables = filter (λ t. not (t.name == name)) d.tables })
run_operation (create_index table i) d = with_tables d (
    alter table
      (λ t.
        if any (λ (j : Index). j.name == i.name) t.indexes
        then none
        else some (record t { indexes = t.indexes ++ i ∷ [] }))
      d.tables)
run_operation (drop_index table name) d = with_tables d (
    alter table
      (λ t.
        if any (λ (j : Index). j.name == name) t.indexes
        then some (record t { indexes = filter (λ (j : Index). not (j.name == name)) t.indexes })
        else none)
      d.tables)
run_operation (add_column table c) d = with_tables d (
    alter table
      (λ t.
        if any (λ (b : Column). b.name == c.name) t.columns
        then none
        else some (record t { columns = t.columns ++ c ∷ [] }))
      d.tables)
run_operation (drop_column table name) d = with_tables d (
    alter table
      (λ t.
        if any (λ (b : Column). b.name == name) t.columns
        then some (record t { columns = filter (λ (b : Column). not (b.name == name)) t.columns })
        else none)
      d.tables)
run_operation (create_foreign_key table k) d =
    if has_table k.target d.tables && all (is_known d.positions) d.carried
    then with_tables d
        (alter table (λ t. some (record t { foreign_keys = t.foreign_keys ++ k ∷ [] })) d.tables)
    else none
run_operation (drop_constraint table name) d = with_tables d (
    alter table
      (λ t. some (record t {
        foreign_keys = filter (λ (k : ForeignKey). not (is_named name k.constraint)) t.foreign_keys;
      }))
      d.tables)
run_operation insert_carried d =
    some (record d { positions = d.positions ++ missing d.positions d.carried })

abbrev pub and_then : Option Database → (Database → Option Database) → Option Database
and_then none k = none
and_then (some d) k = k d

unfoldable pub migrate : List Operation → Database → Option Database
unfolding run_operation
migrate [] d = some d
migrate (o ∷ os) d = and_then (run_operation o d) (migrate os)
