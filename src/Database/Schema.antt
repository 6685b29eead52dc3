-- ===== src/Database/Schema.antt =====
-- What PostgreSQL and TypeORM document of the calls of a `QueryRunner`, on the list of the tables.
use birr_track_backend.Base.{
  ◌≡◌, Bool, true, false, not, ◌&&◌, ◌||◌, Option, none, some, List, [], ◌∷◌, ◌++◌, Text, codes,
  text_eq, find_first, keep, if◌then◌else◌, is_some,
}
use birr_track_backend.Base.Results.{Result, ok}
use birr_track_backend.Database.{TableIndex, TableForeignKey, Table, QueryRunner}

abbrev is_named : Text → Table → Bool
is_named name table = text_eq table.name name

unfoldable pub find_table : Text → List Table → Option Table
unfolding text_eq
find_table name tables = find_first (is_named name) tables

-- The table of the name is changed, the others stay.
unfoldable pub change : Text → (Table → Table) → List Table → List Table
unfolding text_eq
change name f [] = []
change name f (t ∷ ts) =
    let rest = change name f ts in if is_named name t then f t ∷ rest else t ∷ rest

unfoldable pub remove : Text → List Table → List Table
unfolding text_eq
remove name tables = keep (λ t. not (is_named name t)) tables

unfoldable pub has_columns : Table → List Text → Bool
unfolding text_eq
has_columns table [] = true
has_columns table (name ∷ names) =
    is_some (find_first (λ c. text_eq c.name name) table.columns) && has_columns table names

-- Some table has a foreign key to the table of the name.
unfoldable pub is_referenced : Text → List Table → Bool
unfolding text_eq
is_referenced name [] = false
is_referenced name (t ∷ ts) =
    is_some (find_first (λ key. text_eq key.referenced_table_name name) t.foreign_keys)
    || is_referenced name ts

unfoldable pub has_index : Text → List Table → Bool
unfolding text_eq
has_index name [] = false
has_index name (t ∷ ts) =
    is_some (find_first (λ index. text_eq index.name name) t.indices) || has_index name ts

abbrev pub add_index : TableIndex → Table → Table
add_index index t = record t { indices = t.indices ++ index ∷ [] }

abbrev pub add_key : TableForeignKey → Table → Table
add_key key t = record t { foreign_keys = t.foreign_keys ++ key ∷ [] }

unfoldable pub same_names : List Text → List Text → Bool
unfolding text_eq
same_names [] [] = true
same_names (x ∷ xs) (y ∷ ys) = text_eq x y && same_names xs ys
same_names _ _ = false

-- TypeORM names a foreign key by its table and its columns.
unfoldable pub without_key : TableForeignKey → Table → Table
unfolding same_names
without_key key t = record t {
  foreign_keys = keep (λ k. not (same_names k.column_names key.column_names)) t.foreign_keys;
}

module _ {S : Type 0} (schema : S → List Table) where
  -- The call returns `a`, and leaves the tables.
  abbrev pub Does : {A : Type 0} → Result A × S → A → List Table → Type 0
  Does call a tables = (s : S) × (call ≡ (ok a, s)) × (schema s ≡ tables)

  pub record IsQueryRunner (runner : QueryRunner S) : Type 0 where
    pub extension_ok :
        (s : S)
        → Does (runner.query (codes "CREATE EXTENSION IF NOT EXISTS \"uuid-ossp\"") s) tt (schema s)
    pub create_table_ok :
        (t : Table) (s : S)
        → find_table t.name (schema s) ≡ none
        → Does (runner.create_table t s) tt (schema s ++ t ∷ [])
    pub create_index_ok :
        (name : Text) (index : TableIndex) (s : S) (t : Table)
        → find_table name (schema s) ≡ some t
        → has_columns t index.column_names ≡ true
        → has_index index.name (schema s) ≡ false
        → Does (runner.create_index name index s) tt (change name (add_index index) (schema s))
    pub create_foreign_key_ok :
        (name : Text) (key : TableForeignKey) (s : S) (t referenced : Table)
        → find_table name (schema s) ≡ some t
        → has_columns t key.column_names ≡ true
        → find_table key.referenced_table_name (schema s) ≡ some referenced
        → has_columns referenced key.referenced_column_names ≡ true
        → Does (runner.create_foreign_key name key s) tt (change name (add_key key) (schema s))
    pub get_table_ok :
        (name : Text) (s : S)
        → Does (runner.get_table name s) (find_table name (schema s)) (schema s)
    pub drop_foreign_key_ok :
        (name : Text) (key : TableForeignKey) (s : S) (t : Table)
        → find_table name (schema s) ≡ some t
        → Does (runner.drop_foreign_key name key s) tt (change name (without_key key) (schema s))
    pub drop_table_ok :
        (name : Text) (s : S) (t : Table)
        → find_table name (schema s) ≡ some t
        → is_referenced name (schema s) ≡ false
        → Does (runner.drop_table name s) tt (remove name (schema s))
