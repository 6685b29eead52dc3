-- ===== src/Database/Tables.antt =====
-- The four tables of src/database/migrations/1712050000000-InitialSchema.ts, with their indices and
-- foreign keys.
use birr_track_backend.Base.{true, some, List, [], ◌∷◌, Text, codes}
use birr_track_backend.Database.{TableColumn, column, TableIndex, TableForeignKey, Table, new_table}

abbrev pub businesses_name : Text
businesses_name = codes "businesses"

abbrev pub managers_name : Text
managers_name = codes "managers"

abbrev pub transactions_name : Text
transactions_name = codes "transactions"

abbrev pub edit_logs_name : Text
edit_logs_name = codes "edit_logs"

abbrev id_column : TableColumn
id_column = record (column (codes "id") (codes "uuid")) {
  is_primary = true;
  generation_strategy = some (codes "uuid");
  default = some (codes "uuid_generate_v4()");
}

-- A date that the database sets at the insertion.
abbrev now_column : Text → TableColumn
now_column name = record (column name (codes "timestamptz")) { default = some (codes "now()") }

abbrev varchar : Text → Text → TableColumn
varchar name length = record (column name (codes "varchar")) { length = some length }

abbrev nullable_text : Text → TableColumn
nullable_text name = record (column name (codes "text")) { is_nullable = true }

unfoldable pub businesses_table : Table
businesses_table = new_table businesses_name (
    id_column
    ∷ record (varchar (codes "name") (codes "255")) { is_unique = true }
    ∷ now_column (codes "createdAt")
    ∷ [])

unfoldable pub managers_table : Table
managers_table = new_table managers_name (
    id_column
    ∷ column (codes "businessId") (codes "uuid")
    ∷ record (varchar (codes "email") (codes "255")) { is_unique = true }
    ∷ varchar (codes "passwordHash") (codes "255")
    ∷ [])

unfoldable pub transactions_table : Table
transactions_table = new_table transactions_name (
    id_column
    ∷ column (codes "telegramUserId") (codes "bigint")
    ∷ varchar (codes "telegramName") (codes "255")
    ∷ record (column (codes "amount") (codes "numeric")) {
      precision_and_scale = some (codes "14", codes "2");
    }
    ∷ varchar (codes "transactionId") (codes "128")
    ∷ column (codes "timestamp") (codes "timestamptz")
    ∷ varchar (codes "bankName") (codes "120")
    ∷ column (codes "confidence") (codes "float")
    ∷ record (column (codes "isDuplicate") (codes "boolean")) { default = some (codes "false") }
    ∷ nullable_text (codes "imageUrl")
    ∷ now_column (codes "createdAt")
    ∷ [])

unfoldable pub edit_logs_table : Table
edit_logs_table = new_table edit_logs_name (
    id_column
    ∷ column (codes "transactionId") (codes "uuid")
    ∷ varchar (codes "fieldName") (codes "80")
    ∷ nullable_text (codes "oldValue")
    ∷ nullable_text (codes "newValue")
    ∷ varchar (codes "editedBy") (codes "120")
    ∷ now_column (codes "editedAt")
    ∷ [])

abbrev index : Text → List Text → TableIndex
index name column_names = record { name = name; column_names = column_names }

abbrev pub manager_index : TableIndex
manager_index = index (codes "idx_manager_business_id") (codes "businessId" ∷ [])

abbrev pub duplicate_index : TableIndex
duplicate_index =
    index (codes "idx_transaction_duplicate_lookup")
      (codes "transactionId" ∷ codes "amount" ∷ codes "timestamp" ∷ [])

abbrev pub user_index : TableIndex
user_index = index (codes "idx_transaction_telegram_user_id") (codes "telegramUserId" ∷ [])

abbrev pub created_index : TableIndex
created_index = index (codes "idx_transaction_created_at") (codes "createdAt" ∷ [])

abbrev pub edit_log_index : TableIndex
edit_log_index = index (codes "idx_edit_log_transaction_id") (codes "transactionId" ∷ [])

-- A key on the `id` of a table, whose rows go with the row that they refer to.
abbrev cascade : Text → Text → TableForeignKey
cascade name referenced = record {
  column_names = name ∷ [];
  referenced_table_name = referenced;
  referenced_column_names = codes "id" ∷ [];
  on_delete = codes "CASCADE";
}

abbrev pub business_key : TableForeignKey
business_key = cascade (codes "businessId") businesses_name

abbrev pub transaction_key : TableForeignKey
transaction_key = cascade (codes "transactionId") transactions_name
