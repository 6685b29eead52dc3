-- ===== src/Database/Migration.antt =====
-- `up` and `down` of src/database/migrations/1712050000000-InitialSchema.ts.
use birr_track_backend.Base.{
  Bool, false, ◌||◌, Option, none, some, List, [], ◌∷◌, Text, codes, text_eq, find_first,
}
use birr_track_backend.Base.Effects.{M, ◌>>=◌, ◌>>◌, pure}
use birr_track_backend.Database.{TableForeignKey, Table, QueryRunner}
use birr_track_backend.Database.Tables.{
  businesses_name, managers_name, transactions_name, edit_logs_name, businesses_table,
  managers_table, transactions_table, edit_logs_table, manager_index, duplicate_index, user_index,
  created_index, edit_log_index, business_key, transaction_key,
}

-- `columnNames.includes(name)`.
unfoldable pub includes_name : Text → List Text → Bool
unfolding text_eq
includes_name name [] = false
includes_name name (x ∷ xs) = text_eq x name || includes_name name xs

-- `table?.foreignKeys.find((key) => key.columnNames.includes(name))`.
abbrev pub key_on : Text → Option Table → Option TableForeignKey
key_on name none = none
key_on name (some table) =
    find_first (λ key. includes_name name key.column_names) table.foreign_keys

module _ {S : Type 0} (runner : QueryRunner S) where
  abbrev pub drop_key : Text → Option TableForeignKey → M S (Unit {0})
  drop_key table none = pure tt
  drop_key table (some key) = runner.drop_foreign_key table key

  -- Drops the foreign key of a table that is on the column.
  abbrev pub drop_key_on : Text → Text → M S (Unit {0})
  drop_key_on table name = do found ← runner.get_table table; drop_key table (key_on name found)

  unfoldable pub up : M S (Unit {0})
  up = do
    runner.query (codes "CREATE EXTENSION IF NOT EXISTS \"uuid-ossp\"")
    runner.create_table businesses_table
    runner.create_table managers_table
    runner.create_index managers_name manager_index
    runner.create_foreign_key managers_name business_key
    runner.create_table transactions_table
    runner.create_index transactions_name duplicate_index
    runner.create_index transactions_name user_index
    runner.create_index transactions_name created_index
    runner.create_table edit_logs_table
    runner.create_index edit_logs_name edit_log_index
    runner.create_foreign_key edit_logs_name transaction_key

  unfoldable pub down : M S (Unit {0})
  down = do
    drop_key_on edit_logs_name (codes "transactionId")
    runner.drop_table edit_logs_name
    runner.drop_table transactions_name
    drop_key_on managers_name (codes "businessId")
    runner.drop_table managers_name
    runner.drop_table businesses_name
