-- ===== src/Migrations/Initial.antt =====
-- shared/migrations/versions/0001_initial_schema.py
use mycelium_consciousness.Prelude.{Text, codes, true, false, List, [], ◌∷◌, none, some}
use mycelium_consciousness.Migrations.{
  EnumType, ColumnType, integer, boolean, timestamp_tz, large_binary, string, string_of, enum,
  Column, ForeignKey, Unique, Index, Table, Statement, create_type, drop_type, create_table,
  drop_table, create_index, drop_index, create_unique, drop_constraint,
}

abbrev pub roles : EnumType
roles = record { name = codes "user_role"; labels = codes "admin" ∷ codes "clone" ∷ [] }

abbrev pub tiers : EnumType
tiers = record {
  name = codes "subscription_tier";
  labels = codes "free" ∷ codes "standard" ∷ codes "premium" ∷ [];
}

-- sa.Column(name, type, nullable=False), and the same with a server_default.
abbrev column : Text → ColumnType → Column
column n t = record { name = n; type = t; nullable = false; server_default = none }

abbrev nullable_column : Text → ColumnType → Column
nullable_column n t = record { name = n; type = t; nullable = true; server_default = none }

abbrev default_column : Text → ColumnType → Text → Column
default_column n t d = record { name = n; type = t; nullable = false; server_default = some d }

abbrev pub users : Table
users = record {
  name = codes "users";
  columns =
      column (codes "id") integer
      ∷ column (codes "email") (string_of 320)
      ∷ column (codes "password_hash") (string_of 255)
      ∷ default_column (codes "role") (enum (codes "user_role")) (codes "clone")
      ∷ default_column (codes "is_active") boolean (codes "true")
      ∷ default_column (codes "created_at") timestamp_tz (codes "now()")
      ∷ [];
  primary_key = codes "id" ∷ [];
  foreign_keys = [];
  uniques = [];
  indexes = [];
}

abbrev pub clone_profiles : Table
clone_profiles = record {
  name = codes "clone_profiles";
  columns =
      column (codes "id") integer
      ∷ column (codes "designation") string
      ∷ default_column (codes "status") string (codes "active")
      ∷ default_column (codes "subscription_tier") (enum (codes "subscription_tier")) (codes "free")
      ∷ nullable_column (codes "user_id") integer
      ∷ default_column (codes "created_at") timestamp_tz (codes "now()")
      ∷ [];
  primary_key = codes "id" ∷ [];
  foreign_keys =
      record { column = codes "user_id"; target_table = codes "users"; target_column = codes "id" }
      ∷ [];
  uniques = [];
  indexes = [];
}

abbrev cascade_to_clone : ForeignKey
cascade_to_clone = record {
  column = codes "clone_id";
  target_table = codes "clone_profiles";
  target_column = codes "id";
}

abbrev pub memory_buffers : Table
memory_buffers = record {
  name = codes "memory_buffers";
  columns =
      column (codes "clone_id") integer
      ∷ column (codes "payload") large_binary
      ∷ default_column (codes "entry_count") integer (codes "0")
      ∷ default_column (codes "updated_at") timestamp_tz (codes "now()")
      ∷ [];
  primary_key = codes "clone_id" ∷ [];
  foreign_keys = cascade_to_clone ∷ [];
  uniques = [];
  indexes = [];
}

abbrev pub memory_backups : Table
memory_backups = record {
  name = codes "memory_backups";
  columns =
      column (codes "id") integer
      ∷ column (codes "clone_id") integer
      ∷ column (codes "period_start") timestamp_tz
      ∷ column (codes "period_end") timestamp_tz
      ∷ column (codes "entry_count") integer
      ∷ column (codes "storage_key") string
      ∷ column (codes "subscription_tier") (enum (codes "subscription_tier"))
      ∷ default_column (codes "created_at") timestamp_tz (codes "now()")
      ∷ nullable_column (codes "restored_at") timestamp_tz
      ∷ [];
  primary_key = codes "id" ∷ [];
  foreign_keys = cascade_to_clone ∷ [];
  uniques = [];
  indexes = [];
}

abbrev pub email_index : Index
email_index = record { name = codes "ix_users_email"; columns = codes "email" ∷ []; unique = true }

abbrev pub designation_index : Index
designation_index = record {
  name = codes "ix_clone_profiles_designation";
  columns = codes "designation" ∷ [];
  unique = true;
}

abbrev pub user_constraint : Unique
user_constraint = record {
  name = some (codes "uq_clone_profiles_user_id");
  columns = codes "user_id" ∷ [];
}

abbrev pub period_index : Index
period_index = record {
  name = codes "ix_memory_backups_clone_id_period_end";
  columns = codes "clone_id" ∷ codes "period_end" ∷ [];
  unique = false;
}

unfoldable pub upgrade : List Statement
upgrade =
    create_type roles
    ∷ create_type tiers
    ∷ create_table users
    ∷ create_index (codes "users") email_index
    ∷ create_table clone_profiles
    ∷ create_index (codes "clone_profiles") designation_index
    ∷ create_unique (codes "clone_profiles") user_constraint
    ∷ create_table memory_buffers
    ∷ create_table memory_backups
    ∷ create_index (codes "memory_backups") period_index
    ∷ []

unfoldable pub downgrade : List Statement
downgrade =
    drop_index (codes "ix_memory_backups_clone_id_period_end") (codes "memory_backups")
    ∷ drop_table (codes "memory_backups")
    ∷ drop_table (codes "memory_buffers")
    ∷ drop_constraint (codes "uq_clone_profiles_user_id") (codes "clone_profiles")
    ∷ drop_index (codes "ix_clone_profiles_designation") (codes "clone_profiles")
    ∷ drop_table (codes "clone_profiles")
    ∷ drop_index (codes "ix_users_email") (codes "users")
    ∷ drop_table (codes "users")
    ∷ drop_type (codes "subscription_tier")
    ∷ drop_type (codes "user_role")
    ∷ []
