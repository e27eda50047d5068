-- ===== src/Migrations/Declared.antt =====
-- The schema that the models of shared/src/shared/db/models.py declare, and the tables that
-- SQLAlchemy derives from it: a column is nullable if its type is optional, a unique column with an
-- index has a unique index `ix_<table>_<column>`, and one without it an unnamed unique constraint.
use mycelium_consciousness.Prelude.{
  Text, codes, Bool, true, false, List, [], ◌∷◌, ◌++◌, map, Option, none, some, ◌&&◌, not,
  if◌then◌else◌,
}
use mycelium_consciousness.Subscriptions.{admin, clone, role_value}
use mycelium_consciousness.Models.{active_status}
use mycelium_consciousness.Migrations.{
  EnumType, ColumnType, integer, boolean, timestamp_tz, large_binary, string, string_of, enum,
  Column, ForeignKey, Unique, Index, Table,
}

-- `mapped_column`
pub record MappedColumn : Type 0 where
  pub name : Text
  pub type : ColumnType
  pub optional : Bool
  pub primary_key : Bool
  pub unique : Bool
  pub index : Bool
  pub references : Option (Text × Text)
  pub server_default : Option Text

pub record Model : Type 0 where
  pub tablename : Text
  pub columns : List MappedColumn
  pub table_args : List Index

abbrev mapped : Text → ColumnType → MappedColumn
mapped n t = record {
  name = n;
  type = t;
  optional = false;
  primary_key = false;
  unique = false;
  index = false;
  references = none;
  server_default = none;
}

abbrev identity : MappedColumn
identity = record (mapped (codes "id") integer) { primary_key = true }

abbrev now_column : Text → MappedColumn
now_column n = record (mapped n timestamp_tz) { server_default = some (codes "now()") }

abbrev clone_reference : MappedColumn
clone_reference = record (mapped (codes "clone_id") integer) {
  references = some (codes "clone_profiles", codes "id");
}

abbrev pub user_model : Model
user_model = record {
  tablename = codes "users";
  columns =
      identity
      ∷ record (mapped (codes "email") (string_of 320)) { unique = true; index = true }
      ∷ mapped (codes "password_hash") (string_of 255)
      ∷ record (mapped (codes "role") (enum (codes "user_role"))) {
        server_default = some (role_value clone);
      }
      ∷ record (mapped (codes "is_active") boolean) { server_default = some (codes "true") }
      ∷ now_column (codes "created_at")
      ∷ [];
  table_args = [];
}

abbrev clone_profile_model : Model
clone_profile_model = record {
  tablename = codes "clone_profiles";
  columns =
      identity
      ∷ record (mapped (codes "designation") string) { unique = true; index = true }
      ∷ record (mapped (codes "status") string) { server_default = some active_status }
      ∷ record (mapped (codes "subscription_tier") (enum (codes "subscription_tier"))) {
        server_default = some (codes "free");
      }
      ∷ record (mapped (codes "user_id") integer) {
        optional = true;
        unique = true;
        references = some (codes "users", codes "id");
      }
      ∷ now_column (codes "created_at")
      ∷ [];
  table_args = [];
}

abbrev memory_buffer_model : Model
memory_buffer_model = record {
  tablename = codes "memory_buffers";
  columns =
      record clone_reference { primary_key = true }
      ∷ mapped (codes "payload") large_binary
      ∷ record (mapped (codes "entry_count") integer) { server_default = some (codes "0") }
      ∷ now_column (codes "updated_at")
      ∷ [];
  table_args = [];
}

abbrev memory_backup_model : Model
memory_backup_model = record {
  tablename = codes "memory_backups";
  columns =
      identity
      ∷ clone_reference
      ∷ mapped (codes "period_start") timestamp_tz
      ∷ mapped (codes "period_end") timestamp_tz
      ∷ mapped (codes "entry_count") integer
      ∷ mapped (codes "storage_key") string
      ∷ mapped (codes "subscription_tier") (enum (codes "subscription_tier"))
      ∷ now_column (codes "created_at")
      ∷ record (mapped (codes "restored_at") timestamp_tz) { optional = true }
      ∷ [];
  table_args =
      record {
        name = codes "ix_memory_backups_clone_id_period_end";
        columns = codes "clone_id" ∷ codes "period_end" ∷ [];
        unique = false;
      }
      ∷ [];
}

abbrev column_of : MappedColumn → Column
column_of c = record {
  name = c.name;
  type = c.type;
  nullable = c.optional;
  server_default = c.server_default;
}

keys_of : List MappedColumn → List Text
keys_of [] = []
keys_of (c ∷ cs) = let rest = keys_of cs in if c.primary_key then c.name ∷ rest else rest

abbrev add_reference : Text → Option (Text × Text) → List ForeignKey → List ForeignKey
add_reference n none rest = rest
add_reference n (some (table, column)) rest =
    record { column = n; target_table = table; target_column = column } ∷ rest

references_of : List MappedColumn → List ForeignKey
references_of [] = []
references_of (c ∷ cs) = add_reference c.name c.references (references_of cs)

uniques_of : List MappedColumn → List Unique
uniques_of [] = []
uniques_of (c ∷ cs) =
    let rest = uniques_of cs in
    if c.unique && not c.index then record { name = none; columns = c.name ∷ [] } ∷ rest else rest

indexes_of : Text → List MappedColumn → List Index
indexes_of table [] = []
indexes_of table (c ∷ cs) =
    let rest = indexes_of table cs in
    if c.index
    then record {
      name = codes "ix_" ++ (table ++ (codes "_" ++ c.name));
      columns = c.name ∷ [];
      unique = c.unique;
    }
      ∷ rest
    else rest

table_of : Model → Table
unfolding keys_of references_of uniques_of indexes_of
table_of m = record {
  name = m.tablename;
  columns = map column_of m.columns;
  primary_key = keys_of m.columns;
  foreign_keys = references_of m.columns;
  uniques = uniques_of m.columns;
  indexes = indexes_of m.tablename m.columns ++ m.table_args;
}

-- The values of the enumerations, by `values_callable`.
abbrev pub declared_types : List EnumType
declared_types =
    record {
      name = codes "subscription_tier";
      labels = codes "free" ∷ codes "standard" ∷ codes "premium" ∷ [];
    }
    ∷ record { name = codes "user_role"; labels = map role_value (admin ∷ clone ∷ []) }
    ∷ []

-- A table comes behind those that it refers to.
unfoldable pub declared_tables : List Table
unfolding table_of
declared_tables =
    map table_of (memory_backup_model ∷ memory_buffer_model ∷ clone_profile_model ∷ user_model ∷ [])
