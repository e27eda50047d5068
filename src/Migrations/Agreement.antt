-- ===== src/Migrations/Agreement.antt =====
-- The first migration makes the schema that the models declare, and its downgrade takes it away.
use mycelium_consciousness.Prelude.{codes, false, List, [], ◌∷◌, ◌++◌, map, ◌≡◌, refl, text_eq}
use mycelium_consciousness.Subscriptions.{role_value}
use mycelium_consciousness.Effects.{ok, ◌>>?◌}
use mycelium_consciousness.Migrations.{
  Catalog, EnumType, Table, Unique, create_type, create_table, create_index, create_unique,
  drop_type, drop_table, drop_index, drop_constraint, has_type, has_table, relation_taken,
  referenced, type_used, execute, migrate, remove_type, remove_table, remove_index, remove_unique,
  alter,
}
use mycelium_consciousness.Migrations.Initial.{
  upgrade, downgrade, roles, tiers, users, clone_profiles, memory_buffers, memory_backups,
  email_index, designation_index, period_index, user_constraint,
}
use mycelium_consciousness.Migrations.Declared.{declared_types, declared_tables}

-- A catalog that knows none of the names of the migration.
pub record IsFresh (c : Catalog) : Type 0 where
  pub no_role : has_type (codes "user_role") c.types ≡ false
  pub no_tier : has_type (codes "subscription_tier") c.types ≡ false
  pub role_unused : type_used (codes "user_role") c.tables ≡ false
  pub tier_unused : type_used (codes "subscription_tier") c.tables ≡ false
  pub no_users : relation_taken (codes "users") c.tables ≡ false
  pub no_profiles : relation_taken (codes "clone_profiles") c.tables ≡ false
  pub no_buffers : relation_taken (codes "memory_buffers") c.tables ≡ false
  pub no_backups : relation_taken (codes "memory_backups") c.tables ≡ false
  pub no_email_index : relation_taken (codes "ix_users_email") c.tables ≡ false
  pub no_designation_index : relation_taken (codes "ix_clone_profiles_designation") c.tables ≡ false
  pub no_period_index :
      relation_taken (codes "ix_memory_backups_clone_id_period_end") c.tables ≡ false
  pub users_free : referenced (codes "users") c.tables ≡ false
  pub profiles_free : referenced (codes "clone_profiles") c.tables ≡ false
  pub buffers_free : referenced (codes "memory_buffers") c.tables ≡ false
  pub backups_free : referenced (codes "memory_backups") c.tables ≡ false

abbrev with_name : Unique → Unique
with_name u = record u { name = user_constraint.name }

-- The models leave it to the migration to name their one unique constraint without an index.
pub named : Table → Table
named t = record t { uniques = map with_name t.uniques }

abbrev pub declared_in : Catalog → Catalog
declared_in c = record {
  types = declared_types ++ c.types;
  tables = map named declared_tables ++ c.tables;
}

-- The tables as the migration leaves them.
abbrev indexed_users : Table
indexed_users = record users { indexes = email_index ∷ [] }

abbrev indexed_profiles : Table
indexed_profiles = record clone_profiles { indexes = designation_index ∷ [] }

abbrev unique_profiles : Table
unique_profiles = record indexed_profiles { uniques = user_constraint ∷ [] }

abbrev indexed_backups : Table
indexed_backups = record memory_backups { indexes = period_index ∷ [] }

abbrev both : List EnumType
both = tiers ∷ roles ∷ []

module _ (c : Catalog) (fresh : IsFresh c) where
  -- The catalog with these types and tables more.
  abbrev with_new : List EnumType → List Table → Catalog
  with_new types tables = record { types = types ++ c.types; tables = tables ++ c.tables }

  role_made : execute (create_type roles) (with_new [] []) ≡ ok (with_new (roles ∷ []) [])
  unfolding execute
  role_made = rw fresh.no_role refl

  tier_made : execute (create_type tiers) (with_new (roles ∷ []) []) ≡ ok (with_new both [])
  unfolding execute has_type text_eq
  tier_made = rw fresh.no_tier refl

  users_made : execute (create_table users) (with_new both []) ≡ ok (with_new both (users ∷ []))
  unfolding execute has_type text_eq
  users_made = rw fresh.no_users refl

  users_indexed :
      execute (create_index (codes "users") email_index) (with_new both (users ∷ []))
      ≡ ok (with_new both (indexed_users ∷ []))
  unfolding execute has_table relation_taken text_eq alter
  users_indexed = rw fresh.no_email_index refl

  profiles_made :
      execute (create_table clone_profiles) (with_new both (indexed_users ∷ []))
      ≡ ok (with_new both (clone_profiles ∷ indexed_users ∷ []))
  unfolding execute has_type has_table relation_taken text_eq
  profiles_made = rw fresh.no_profiles refl

  profiles_indexed :
      execute
        (create_index (codes "clone_profiles") designation_index)
        (with_new both (clone_profiles ∷ indexed_users ∷ []))
      ≡ ok (with_new both (indexed_profiles ∷ indexed_users ∷ []))
  unfolding execute has_table relation_taken text_eq alter
  profiles_indexed = rw fresh.no_designation_index refl

  profiles_unique :
      execute
        (create_unique (codes "clone_profiles") user_constraint)
        (with_new both (indexed_profiles ∷ indexed_users ∷ []))
      ≡ ok (with_new both (unique_profiles ∷ indexed_users ∷ []))
  unfolding execute has_table text_eq alter
  profiles_unique = refl

  buffers_made :
      execute (create_table memory_buffers) (with_new both (unique_profiles ∷ indexed_users ∷ []))
      ≡ ok (with_new both (memory_buffers ∷ unique_profiles ∷ indexed_users ∷ []))
  unfolding execute has_type has_table relation_taken text_eq
  buffers_made = rw fresh.no_buffers refl

  backups_made :
      execute
        (create_table memory_backups)
        (with_new both (memory_buffers ∷ unique_profiles ∷ indexed_users ∷ []))
      ≡ ok (with_new both (memory_backups ∷ memory_buffers ∷ unique_profiles ∷ indexed_users ∷ []))
  unfolding execute has_type has_table relation_taken text_eq
  backups_made = rw fresh.no_backups refl

  backups_indexed :
      execute
        (create_index (codes "memory_backups") period_index)
        (with_new both (memory_backups ∷ memory_buffers ∷ unique_profiles ∷ indexed_users ∷ []))
      ≡ ok (with_new both (indexed_backups ∷ memory_buffers ∷ unique_profiles ∷ indexed_users ∷ []))
  unfolding execute has_table relation_taken text_eq alter
  backups_indexed = rw fresh.no_period_index refl

  period_index_dropped :
      execute
        (drop_index (codes "ix_memory_backups_clone_id_period_end") (codes "memory_backups"))
        (with_new both (indexed_backups ∷ memory_buffers ∷ unique_profiles ∷ indexed_users ∷ []))
      ≡ ok (with_new both (memory_backups ∷ memory_buffers ∷ unique_profiles ∷ indexed_users ∷ []))
  unfolding execute text_eq alter remove_index
  period_index_dropped = refl

  backups_dropped :
      execute
        (drop_table (codes "memory_backups"))
        (with_new both (memory_backups ∷ memory_buffers ∷ unique_profiles ∷ indexed_users ∷ []))
      ≡ ok (with_new both (memory_buffers ∷ unique_profiles ∷ indexed_users ∷ []))
  unfolding execute has_table referenced remove_table text_eq
  backups_dropped = rw fresh.backups_free refl

  buffers_dropped :
      execute
        (drop_table (codes "memory_buffers"))
        (with_new both (memory_buffers ∷ unique_profiles ∷ indexed_users ∷ []))
      ≡ ok (with_new both (unique_profiles ∷ indexed_users ∷ []))
  unfolding execute has_table referenced remove_table text_eq
  buffers_dropped = rw fresh.buffers_free refl

  constraint_dropped :
      execute
        (drop_constraint (codes "uq_clone_profiles_user_id") (codes "clone_profiles"))
        (with_new both (unique_profiles ∷ indexed_users ∷ []))
      ≡ ok (with_new both (indexed_profiles ∷ indexed_users ∷ []))
  unfolding execute text_eq alter remove_unique
  constraint_dropped = refl

  designation_index_dropped :
      execute
        (drop_index (codes "ix_clone_profiles_designation") (codes "clone_profiles"))
        (with_new both (indexed_profiles ∷ indexed_users ∷ []))
      ≡ ok (with_new both (clone_profiles ∷ indexed_users ∷ []))
  unfolding execute text_eq alter remove_index
  designation_index_dropped = refl

  profiles_dropped :
      execute
        (drop_table (codes "clone_profiles"))
        (with_new both (clone_profiles ∷ indexed_users ∷ []))
      ≡ ok (with_new both (indexed_users ∷ []))
  unfolding execute has_table referenced remove_table text_eq
  profiles_dropped = rw fresh.profiles_free refl

  email_index_dropped :
      execute
        (drop_index (codes "ix_users_email") (codes "users"))
        (with_new both (indexed_users ∷ []))
      ≡ ok (with_new both (users ∷ []))
  unfolding execute text_eq alter remove_index
  email_index_dropped = refl

  users_dropped :
      execute (drop_table (codes "users")) (with_new both (users ∷ [])) ≡ ok (with_new both [])
  unfolding execute has_table referenced remove_table text_eq
  users_dropped = rw fresh.users_free refl

  tier_dropped :
      execute (drop_type (codes "subscription_tier")) (with_new both [])
      ≡ ok (with_new (roles ∷ []) [])
  unfolding execute remove_type text_eq
  tier_dropped = rw fresh.tier_unused refl

  role_dropped :
      execute (drop_type (codes "user_role")) (with_new (roles ∷ []) []) ≡ ok (with_new [] [])
  unfolding execute remove_type text_eq
  role_dropped = rw fresh.role_unused refl

  -- On a database that has none of its names, the first migration succeeds, and adds exactly the
  -- types, tables, columns, defaults, keys, constraints and indexes that the models declare.
  pub upgrade-declared : migrate upgrade c ≡ ok (declared_in c)
  unfolding migrate upgrade named declared_tables role_value
  upgrade-declared = rw (
    role_made, tier_made, users_made, users_indexed, profiles_made, profiles_indexed,
    profiles_unique, buffers_made, backups_made, backups_indexed,
  )

  downgrade-declared : migrate downgrade (declared_in c) ≡ ok c
  unfolding migrate downgrade named declared_tables role_value
  downgrade-declared = rw (
    period_index_dropped, backups_dropped, buffers_dropped, constraint_dropped,
    designation_index_dropped, profiles_dropped, email_index_dropped, users_dropped, tier_dropped,
    role_dropped,
  )

  -- On such a database, the downgrade of the first migration undoes its upgrade: the catalog is the
  -- one that it was.
  downgrade-upgrade : (migrate upgrade c >>? migrate downgrade) ≡ ok c
  downgrade-upgrade = rw upgrade-declared downgrade-declared
