-- ===== src/Tests/Transactions.antt =====
-- The theorems on src/transactions at small tables.
use birr_track_backend.Base.{
  ℕ, ◌≡◌, ◌≢◌, refl, Bool, false, none, some, List, find_first, [], ◌∷◌, ◌++◌, Text, codes, text_eq,
}
use birr_track_backend.Base.Results.{ok, err}
use birr_track_backend.Js.Numbers.{decimal, parse_int}
use birr_track_backend.Tests.Decimal.{hundredths, decimals}
use birr_track_backend.Tests.Database.{day_numbers, Db, Row, memory, memory-IsStore, arranged}
use birr_track_backend.Transactions.Entities.{TransactionResponse, EditLog}
use birr_track_backend.Transactions.Dto.{
  absent, null, given, CreateTransactionDto, UpdateTransactionDto, get_effective_limit,
}
use birr_track_backend.Transactions.Fields.{
  is_given, get_update_fields, read_dto_field, read_row_field, prepare_update_payload, to_response,
}
use birr_track_backend.Transactions.Store.{
  has_id, patch_row, patch_if, holds, matches, inserted, has_key,
}
use birr_track_backend.Transactions.Update.{
  same_value, not_found, log_changes, apply_update, update,
}
use birr_track_backend.Transactions.Update.Requests.{IsEditor, update_transaction-Updated}
use birr_track_backend.Transactions.Update.{editor_of, update_transaction}
use birr_track_backend.Base.{trim}
use birr_track_backend.Transactions.Update.Outcome.{Updated, update_ok, update_err}
use birr_track_backend.Transactions.Update.Nulls.{
  only_amount, repeated_amount_logged, null_timestamp_resets,
}
use birr_track_backend.Transactions.Update.Edits.{entry}
use birr_track_backend.Transactions.Bigint.{bigint_of, same_bigint}
use birr_track_backend.Transactions.Query.{build_filtered_query, find_all, get_summary, lookup}
use birr_track_backend.Transactions.Service.{new_transaction, create, find_duplicate}

-- Everything that a run on the tables computes with.
unfoldable pub tables : Unit {0}
unfolding decimals decimal text_eq parse_int get_effective_limit is_given get_update_fields
    read_dto_field read_row_field prepare_update_payload to_response patch_row patch_if holds
    matches inserted has_key same_value not_found log_changes apply_update update
    build_filtered_query find_all get_summary new_transaction create find_duplicate arranged lookup
    trim bigint_of same_bigint
tables = tt

abbrev pub row : Text → Text → ℕ → Bool → Row
row id amount_text timestamp is_duplicate = record {
  id = id;
  telegram_user_id = codes "7";
  telegram_name = codes "Abel";
  amount = amount_text;
  transaction_id = codes "FT1";
  timestamp = timestamp;
  bank_name = codes "CBE";
  confidence = 92;
  is_duplicate = is_duplicate;
  image_url = none;
  created_at = timestamp;
}

abbrev pub two_rows : Db
two_rows = record {
  rows = row (codes "0") (codes "100.00") 5 false ∷ row (codes "1") (codes "20.50") 6 false ∷ [];
  logs = [];
}

abbrev new_amount : UpdateTransactionDto ℕ
new_amount = record (only_amount 10050) { bank_name = given (codes "CBE") }

abbrev amount_log : EditLog
amount_log = record {
  transaction_id = codes "0";
  field_name = codes "amount";
  old_value = some (codes "100.00");
  new_value = some (codes "100.5");
  edited_by = codes "hana";
}

abbrev after_update : Db
after_update = record {
  rows = row (codes "0") (codes "100.50") 5 false ∷ row (codes "1") (codes "20.50") 6 false ∷ [];
  logs = amount_log ∷ [];
}

abbrev pub response_of : Row → TransactionResponse ℕ ℕ
response_of r = to_response r

-- One field differs and is logged; the bank's name is given, and is as it was.
update_runs :
    update memory (codes "0") new_amount (codes "hana") two_rows
    ≡ (ok (response_of (row (codes "0") (codes "100.50") 5 false)), after_update)
unfolding tables
update_runs = refl

update_ok_example :
    Updated memory memory-IsStore
      (codes "0")
      new_amount
      (codes "hana")
      two_rows
      after_update
      (response_of (row (codes "0") (codes "100.50") 5 false))
update_ok_example =
    update_ok memory memory-IsStore (codes "0") new_amount (codes "hana") two_rows after_update
      (response_of (row (codes "0") (codes "100.50") 5 false)) update_runs

-- A null amount is refused after the logs were written, and they are undone.
abbrev null_amount : UpdateTransactionDto ℕ
null_amount = record (only_amount 10050) { amount = null; bank_name = given (codes "Awash") }

update_throws :
    update memory (codes "0") null_amount (codes "hana") two_rows
    ≡ (err (codes "Cannot read properties of null (reading 'toFixed')"), two_rows)
unfolding tables
update_throws = refl

update_err_example : two_rows ≡ two_rows
update_err_example =
    update_err memory memory-IsStore (codes "0") null_amount (codes "hana") two_rows two_rows
      (codes "Cannot read properties of null (reading 'toFixed')") update_throws

differing : codes "100" ≢ codes "100.00"
differing e = cc

-- The row of 100.00, asked to be 100.
abbrev hundred : Row
hundred = row (codes "0") (codes "100.00") 5 false

abbrev repeated : Db
repeated = record two_rows {
  logs =
      entry (codes "0") (codes "hana") (codes "amount") (some (codes "100.00")) (some (codes "100"))
      ∷ [];
}

repeat_runs :
    update memory (codes "0") (only_amount 10000) (codes "hana") two_rows
    ≡ (ok (response_of hundred), repeated)
unfolding tables
repeat_runs = refl

repeated_amount_logged_example :
    (find_first (has_id (codes "0")) repeated.rows ≡ some hundred)
    × (repeated.logs
        ≡ entry
            (codes "0")
            (codes "hana")
            (codes "amount")
            (some (codes "100.00"))
            (some (hundredths.string_of 10000))
          ∷ [])
unfolding tables
repeated_amount_logged_example =
    repeated_amount_logged memory memory-IsStore (codes "0") 10000 (codes "hana") two_rows repeated
      (response_of hundred) hundred repeat_runs refl refl differing

-- A timestamp of null.
abbrev null_timestamp : UpdateTransactionDto ℕ
null_timestamp = record (only_amount 10000) { amount = absent; timestamp = null }

abbrev reset : Row
reset = record (row (codes "0") (codes "100.00") 0 false) { created_at = 5 }

abbrev after_reset : Db
after_reset = record {
  rows = reset ∷ row (codes "1") (codes "20.50") 6 false ∷ [];
  logs = entry (codes "0") (codes "hana") (codes "timestamp") (some (codes "5")) none ∷ [];
}

reset_runs :
    update memory (codes "0") null_timestamp (codes "hana") two_rows
    ≡ (ok (response_of reset), after_reset)
unfolding tables
reset_runs = refl

null_timestamp_resets_example :
    (before : Row) × (after : Row) × (find_first (has_id (codes "0")) two_rows.rows ≡ some before)
    × (find_first (has_id (codes "0")) after_reset.rows ≡ some after)
    × (day_numbers.iso_of after.timestamp ≡ codes "1970-01-01T00:00:00.000Z")
    × ((earlier : List EditLog) × (later : List EditLog) × (after_reset.logs
          ≡ earlier
            ++ entry before.id
                (codes "hana")
                (codes "timestamp")
                (some (day_numbers.iso_of before.timestamp))
                none
              ∷ later))
null_timestamp_resets_example =
    null_timestamp_resets memory memory-IsStore (codes "0") null_timestamp (codes "hana") two_rows
      after_reset (response_of reset) reset_runs refl

abbrev receipt_dto : CreateTransactionDto ℕ
receipt_dto = record {
  telegram_user_id = codes "7";
  telegram_name = codes "Abel";
  amount = 5000;
  transaction_id = codes "FT1";
  timestamp = codes "9";
  bank_name = codes "CBE";
  confidence = 92;
  is_duplicate = false;
  image_url = none;
}

abbrev third_row : Row
third_row = record (row (codes "2") (codes "50.00") 9 false) { created_at = 2 }

abbrev three_rows : Db
three_rows = record two_rows { rows = two_rows.rows ++ third_row ∷ [] }

create_runs : create memory receipt_dto two_rows ≡ (ok third_row, three_rows)
unfolding tables
create_runs = refl

repeat_found :
    find_duplicate memory (codes "FT1") 5000 (codes "9") three_rows
    ≡ (ok (some third_row), three_rows)
unfolding tables
repeat_found = refl

patch_runs :
    update_transaction memory (codes "0") new_amount (some (codes " hana ")) two_rows
    ≡ (ok (response_of (row (codes "0") (codes "100.50") 5 false)), after_update)
unfolding tables trim editor_of update_transaction
patch_runs = refl

update_transaction-Updated_example :
    (editor : Text) × IsEditor (some (codes " hana ")) editor
    × Updated memory memory-IsStore
        (codes "0")
        new_amount
        editor
        two_rows
        after_update
        (response_of (row (codes "0") (codes "100.50") 5 false))
update_transaction-Updated_example =
    update_transaction-Updated memory memory-IsStore (codes "0") new_amount (some (codes " hana "))
      two_rows after_update (response_of (row (codes "0") (codes "100.50") 5 false)) patch_runs
