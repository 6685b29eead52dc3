-- ===== src/Database.antt =====
-- The tables, as src/database/migrations and the entities declare them, and the calls of TypeORM's
-- `QueryRunner` that the migration makes.
pub mod Tables
pub mod Migration
pub mod Schema
pub mod Calls
pub mod Created
pub mod Removed
pub mod Entities
pub mod Agreement
use birr_track_backend.Base.{Bool, true, false, Option, none, some, List, [], ◌∷◌, Text, codes}
use birr_track_backend.Base.Effects.{M}

-- The options of a `TableColumn`; those that are left out are `column`'s.
pub record TableColumn : Type 0 where
  pub name : Text
  pub type : Text
  pub length : Option Text
  pub precision_and_scale : Option (Text × Text)
  pub is_primary : Bool
  pub generation_strategy : Option Text
  pub default : Option Text
  pub is_nullable : Bool
  pub is_unique : Bool

abbrev pub column : Text → Text → TableColumn
column name type = record {
  name = name;
  type = type;
  length = none;
  precision_and_scale = none;
  is_primary = false;
  generation_strategy = none;
  default = none;
  is_nullable = false;
  is_unique = false;
}

pub record TableIndex : Type 0 where
  pub name : Text
  pub column_names : List Text

pub record TableForeignKey : Type 0 where
  pub column_names : List Text
  pub referenced_table_name : Text
  pub referenced_column_names : List Text
  pub on_delete : Text

pub record Table : Type 0 where
  pub name : Text
  pub columns : List TableColumn
  pub indices : List TableIndex
  pub foreign_keys : List TableForeignKey

-- `new Table({ name, columns })`.
abbrev pub new_table : Text → List TableColumn → Table
new_table name columns = record { name = name; columns = columns; indices = []; foreign_keys = [] }

-- The calls of a `QueryRunner` that the migration makes; each may throw.
pub record QueryRunner (S : Type 0) : Type 0 where
  pub query : Text → M S (Unit {0})
  pub create_table : Table → M S (Unit {0})
  pub create_index : Text → TableIndex → M S (Unit {0})
  pub create_foreign_key : Text → TableForeignKey → M S (Unit {0})
  pub get_table : Text → M S (Option Table)
  pub drop_foreign_key : Text → TableForeignKey → M S (Unit {0})
  pub drop_table : Text → M S (Unit {0})
