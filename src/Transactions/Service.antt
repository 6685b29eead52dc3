-- ===== src/Transactions/Service.antt =====
-- `create`, `findDuplicate` and `export` of src/transactions/transactions.service.ts, and the
-- handler of `GET /transactions/export`. Writing the workbook to bytes is left to its library.
pub mod Duplicates
pub mod Exported
pub mod Timestamps
use birr_track_backend.Base.{ℕ, Bool, Option, none, some, List, [], ◌∷◌, ◌++◌, map, Text, codes}
use birr_track_backend.Base.Effects.{M, continue, ◌>>=◌, pure}
use birr_track_backend.Js.Numbers.{JsNumber}
use birr_track_backend.Js.Dates.{JsDate}
use birr_track_backend.Transactions.Entities.{Transaction, NewTransaction}
use birr_track_backend.Transactions.Dto.{CreateTransactionDto, GetTransactionsQueryDto}
use birr_track_backend.Transactions.Query.{build_filtered_query}
use birr_track_backend.Transactions.Store.{Query, desc, by_created_at, Store}

-- A column of the worksheet: header, key and width.
abbrev pub Column : Type 0
Column = Text × Text × ℕ

abbrev pub columns : List Column
columns =
    (codes "ID", codes "id", 38)
    ∷ (codes "Telegram User ID", codes "telegramUserId", 20)
    ∷ (codes "Telegram name", codes "telegramName", 28)
    ∷ (codes "Amount", codes "amount", 16)
    ∷ (codes "Transaction ID", codes "transactionId", 24)
    ∷ (codes "Timestamp", codes "timestamp", 28)
    ∷ (codes "Bank Name", codes "bankName", 20)
    ∷ (codes "Confidence", codes "confidence", 14)
    ∷ (codes "Is Duplicate", codes "isDuplicate", 16)
    ∷ (codes "Image URL", codes "imageUrl", 36)
    ∷ (codes "Created At", codes "createdAt", 28)
    ∷ []

-- A cell of the worksheet.
pub data Cell (Num : Type 0) : Type 0 where
  text : Text → Cell Num
  number : Num → Cell Num
  flag : Bool → Cell Num

abbrev text_or_empty : Option Text → Text
text_or_empty (some t) = t
text_or_empty none = []

pub record Worksheet (Num : Type 0) : Type 0 where
  pub header : List Column
  -- Each row as its keys and cells.
  pub body : List (List (Text × Cell Num))

module _ {Num Time : Type 0} ⦃js : JsNumber Num⦄ ⦃dates : JsDate Time⦄ where
  unfoldable pub new_transaction : CreateTransactionDto Num → NewTransaction Num Time
  new_transaction dto = record {
    telegram_user_id = dto.telegram_user_id;
    telegram_name = dto.telegram_name;
    amount = js.to_fixed_2 dto.amount;
    transaction_id = dto.transaction_id;
    timestamp = dates.date_of dto.timestamp;
    bank_name = dto.bank_name;
    confidence = dto.confidence;
    is_duplicate = dto.is_duplicate;
    image_url = dto.image_url;
  }

  unfoldable pub worksheet_row : Transaction Num Time → List (Text × Cell Num)
  worksheet_row item =
      (codes "id", text item.id)
      ∷ (codes "telegramUserId", text item.telegram_user_id)
      ∷ (codes "telegramName", text item.telegram_name)
      ∷ (codes "amount", number (js.number_of item.amount))
      ∷ (codes "transactionId", text item.transaction_id)
      ∷ (codes "timestamp", text (dates.iso_of item.timestamp))
      ∷ (codes "bankName", text item.bank_name)
      ∷ (codes "confidence", number item.confidence)
      ∷ (codes "isDuplicate", flag item.is_duplicate)
      ∷ (codes "imageUrl", text (text_or_empty item.image_url))
      ∷ (codes "createdAt", text (dates.iso_of item.created_at))
      ∷ []

module _ {Time : Type 0} ⦃dates : JsDate Time⦄ where
  abbrev pub export_query : GetTransactionsQueryDto → Query Time
  export_query dto = record {
    where_all = build_filtered_query dto;
    order_by = some (by_created_at desc);
    skip = 0;
    limit = none;
  }

module _ {S Num Time : Type 0} ⦃js : JsNumber Num⦄ ⦃dates : JsDate Time⦄
    (store : Store S Num Time) where
  unfoldable pub create : CreateTransactionDto Num → M S (Transaction Num Time)
  create dto = store.save_transaction (new_transaction dto)

  unfoldable pub find_duplicate : Text → Num → Text → M S (Option (Transaction Num Time))
  find_duplicate transaction_id amount timestamp =
      store.find_by_key transaction_id (js.to_fixed_2 amount) (dates.date_of timestamp)

  unfoldable pub export : GetTransactionsQueryDto → M S (Worksheet Num)
  export dto = do
    transactions ← store.get_many (export_query dto)
    pure (record { header = columns; body = map worksheet_row transactions })
