-- ===== src/Migrations.antt =====
-- shared/migrations: the database's catalog, and the statements that Alembic sends. Types and tables
-- are listed newest first, and an index stands with its table. A statement whose name is taken or
-- missing is refused by the database, as is a drop of what something else still uses.
pub mod Initial
pub mod Declared
pub mod Agreement
use mycelium_consciousness.Prelude.{
  ℕ, Text, Bool, true, false, not, ◌&&◌, ◌||◌, List, [], ◌∷◌, map, Option, none, some, any, all,
  text_eq, if◌then◌else◌,
}
use mycelium_consciousness.Effects.{Result, ok, err, database_error, ◌>>?◌}

pub record EnumType : Type 0 where
  pub name : Text
  pub labels : List Text

pub data ColumnType : Type 0 where
  integer boolean timestamp_tz large_binary string : ColumnType
  string_of : (length : ℕ) → ColumnType
  enum : (name : Text) → ColumnType

pub record Column : Type 0 where
  pub name : Text
  pub type : ColumnType
  pub nullable : Bool
  pub server_default : Option Text

-- A foreign key of one column, ON DELETE CASCADE.
pub record ForeignKey : Type 0 where
  pub column : Text
  pub target_table : Text
  pub target_column : Text

pub record Unique : Type 0 where
  pub name : Option Text
  pub columns : List Text

pub record Index : Type 0 where
  pub name : Text
  pub columns : List Text
  pub unique : Bool

pub record Table : Type 0 where
  pub name : Text
  pub columns : List Column
  pub primary_key : List Text
  pub foreign_keys : List ForeignKey
  pub uniques : List Unique
  pub indexes : List Index

pub record Catalog : Type 0 where
  pub types : List EnumType
  pub tables : List Table

pub data Statement : Type 0 where
  -- with checkfirst=True
  create_type : EnumType → Statement
  drop_type : Text → Statement
  create_table : Table → Statement
  drop_table : Text → Statement
  create_index : (table : Text) → Index → Statement
  drop_index : (name table : Text) → Statement
  create_unique : (table : Text) → Unique → Statement
  drop_constraint : (name table : Text) → Statement

unfoldable pub has_type : Text → List EnumType → Bool
has_type n ts = any (λ t. text_eq n t.name) ts

pub has_table : Text → List Table → Bool
has_table n ts = any (λ t. text_eq n t.name) ts

-- Tables and indexes share their names.
unfoldable pub relation_taken : Text → List Table → Bool
relation_taken n ts = any (λ t. text_eq n t.name || any (λ i. text_eq n i.name) t.indexes) ts

unfoldable pub referenced : Text → List Table → Bool
referenced n ts = any (λ t. any (λ f. text_eq n f.target_table) t.foreign_keys) ts

abbrev is_enum : Text → ColumnType → Bool
is_enum n (enum m) = text_eq n m
is_enum n _ = false

unfoldable pub type_used : Text → List Table → Bool
type_used n ts = any (λ t. any (λ c. is_enum n c.type) t.columns) ts

abbrev known_type : List EnumType → ColumnType → Bool
known_type ts (enum n) = has_type n ts
known_type ts _ = true

abbrev unless : Bool → Catalog → Result Catalog
unless true c = err database_error
unless false c = ok c

abbrev keep_type : EnumType → Bool → List EnumType → List EnumType
keep_type t true rest = rest
keep_type t false rest = t ∷ rest

pub remove_type : Text → List EnumType → List EnumType
remove_type n [] = []
remove_type n (t ∷ ts) = let rest = remove_type n ts in if text_eq n t.name then ts else t ∷ rest

pub remove_table : Text → List Table → List Table
remove_table n [] = []
remove_table n (t ∷ ts) = let rest = remove_table n ts in if text_eq n t.name then ts else t ∷ rest

pub alter : Text → (Table → Table) → List Table → List Table
alter n f [] = []
alter n f (t ∷ ts) = let rest = alter n f ts in if text_eq n t.name then f t ∷ ts else t ∷ rest

pub remove_index : Text → List Index → List Index
remove_index n [] = []
remove_index n (i ∷ is) = let rest = remove_index n is in if text_eq n i.name then is else i ∷ rest

abbrev called : Text → Option Text → Bool
called n none = false
called n (some m) = text_eq n m

pub remove_unique : Text → List Unique → List Unique
remove_unique n [] = []
remove_unique n (u ∷ us) = let rest = remove_unique n us in if called n u.name then us else u ∷ rest

abbrev has_index : Text → Text → List Table → Bool
has_index n table ts = any (λ t. text_eq table t.name && any (λ i. text_eq n i.name) t.indexes) ts

abbrev has_unique : Text → Text → List Table → Bool
has_unique n table ts = any (λ t. text_eq table t.name && any (λ u. called n u.name) t.uniques) ts

pub execute : Statement → Catalog → Result Catalog
execute (create_type t) c = ok (record c { types = keep_type t (has_type t.name c.types) c.types })
execute (drop_type n) c = unless (type_used n c.tables) (record c { types = remove_type n c.types })
execute (create_table t) c =
    unless
      (relation_taken t.name c.tables
        || not (all (λ f. has_table f.target_table c.tables) t.foreign_keys)
        || not (all (λ k. known_type c.types k.type) t.columns))
      (record c { tables = t ∷ c.tables })
execute (drop_table n) c =
    unless (not (has_table n c.tables) || referenced n (remove_table n c.tables))
      (record c { tables = remove_table n c.tables })
execute (create_index table i) c =
    unless (not (has_table table c.tables) || relation_taken i.name c.tables)
      (record c { tables = alter table (λ t. record t { indexes = i ∷ t.indexes }) c.tables })
execute (drop_index n table) c = unless (not (has_index n table c.tables)) (record c {
  tables = alter table (λ t. record t { indexes = remove_index n t.indexes }) c.tables;
})
execute (create_unique table u) c =
    unless (not (has_table table c.tables))
      (record c { tables = alter table (λ t. record t { uniques = u ∷ t.uniques }) c.tables })
execute (drop_constraint n table) c = unless (not (has_unique n table c.tables)) (record c {
  tables = alter table (λ t. record t { uniques = remove_unique n t.uniques }) c.tables;
})

-- PostgreSQL runs a migration in one transaction.
pub migrate : List Statement → Catalog → Result Catalog
migrate [] c = ok c
migrate (x ∷ xs) c = execute x c >>? migrate xs
