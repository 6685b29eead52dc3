-- ===== src/Transactions/Fields.antt =====
-- The fields that an update can change: `getUpdateFields`, `readFieldValue`, `prepareUpdatePayload`
-- and `toResponse` of src/transactions/transactions.service.ts.
use birr_track_backend.Base.{
  Bool, true, false, Option, none, some, List, [], ◌∷◌, Text, codes, keep,
}
use birr_track_backend.Base.Results.{Result, ok, err, ◌>>=◌}
use birr_track_backend.Js.Numbers.{JsNumber}
use birr_track_backend.Js.Dates.{JsDate}
use birr_track_backend.Transactions.Entities.{Transaction, TransactionResponse}
use birr_track_backend.Transactions.Dto.{Given, absent, null, given, UpdateTransactionDto}

-- `EditableTransactionField`.
pub data EditableField : Type 0 where
  amount transaction_id timestamp bank_name confidence image_url : EditableField

abbrev pub field_name : EditableField → Text
field_name amount = codes "amount"
field_name transaction_id = codes "transactionId"
field_name timestamp = codes "timestamp"
field_name bank_name = codes "bankName"
field_name confidence = codes "confidence"
field_name image_url = codes "imageUrl"

abbrev pub candidates : List EditableField
candidates = amount ∷ transaction_id ∷ timestamp ∷ bank_name ∷ confidence ∷ image_url ∷ []

abbrev pub is_present {ℓ} : {A : Type ℓ} → Given A → Bool
is_present absent = false
is_present _ = true

abbrev pub text_of {ℓ} : {A : Type ℓ} → (A → Text) → Given A → Option Text
text_of f (given a) = some (f a)
text_of f _ = none

-- The columns of an update; the date may be invalid.
pub record Patch (Num Time : Type 0) : Type 0 where
  pub amount : Given Text
  pub transaction_id : Given Text
  pub timestamp : Given (Option Time)
  pub bank_name : Given Text
  pub confidence : Given Num
  pub image_url : Given Text

module _ {Num : Type 0} where
  -- `dto[field] !== undefined`.
  unfoldable pub is_given : UpdateTransactionDto Num → EditableField → Bool
  is_given dto amount = is_present dto.amount
  is_given dto transaction_id = is_present dto.transaction_id
  is_given dto timestamp = is_present dto.timestamp
  is_given dto bank_name = is_present dto.bank_name
  is_given dto confidence = is_present dto.confidence
  is_given dto image_url = is_present dto.image_url

  unfoldable pub get_update_fields : UpdateTransactionDto Num → List EditableField
  get_update_fields dto = keep (is_given dto) candidates

module _ {Num : Type 0} ⦃js : JsNumber Num⦄ where
  -- `readFieldValue(updateTransactionDto, field)`.
  unfoldable pub read_dto_field : UpdateTransactionDto Num → EditableField → Option Text
  read_dto_field dto amount = text_of js.string_of dto.amount
  read_dto_field dto transaction_id = text_of (λ t. t) dto.transaction_id
  read_dto_field dto timestamp = text_of (λ t. t) dto.timestamp
  read_dto_field dto bank_name = text_of (λ t. t) dto.bank_name
  read_dto_field dto confidence = text_of js.string_of dto.confidence
  read_dto_field dto image_url = text_of (λ t. t) dto.image_url

module _ {Num : Type 0} ⦃js : JsNumber Num⦄ where
  -- `null.toFixed(2)` throws.
  abbrev pub fixed_amount : Given Num → Result (Given Text)
  fixed_amount absent = ok absent
  fixed_amount null = err (codes "Cannot read properties of null (reading 'toFixed')")
  fixed_amount (given n) = ok (given (js.to_fixed_2 n))

module _ {Time : Type 0} ⦃dates : JsDate Time⦄ where
  -- `new Date(null)` is the epoch.
  abbrev pub patch_date : Given Text → Given (Option Time)
  patch_date absent = absent
  patch_date null = given (some dates.epoch)
  patch_date (given t) = given (dates.date_of t)

module _ {Num Time : Type 0} ⦃js : JsNumber Num⦄ ⦃dates : JsDate Time⦄ where
  -- `readFieldValue(existing, field)`.
  unfoldable pub read_row_field : Transaction Num Time → EditableField → Option Text
  read_row_field row amount = some row.amount
  read_row_field row transaction_id = some row.transaction_id
  read_row_field row timestamp = some (dates.iso_of row.timestamp)
  read_row_field row bank_name = some row.bank_name
  read_row_field row confidence = some (js.string_of row.confidence)
  read_row_field row image_url = row.image_url

  unfoldable pub prepare_update_payload : UpdateTransactionDto Num → Result (Patch Num Time)
  prepare_update_payload dto = do
    fixed ← fixed_amount dto.amount
    ok (record {
      amount = fixed;
      transaction_id = dto.transaction_id;
      timestamp = patch_date dto.timestamp;
      bank_name = dto.bank_name;
      confidence = dto.confidence;
      image_url = dto.image_url;
    })

  unfoldable pub to_response : Transaction Num Time → TransactionResponse Num Time
  to_response item = record {
    id = item.id;
    telegram_user_id = item.telegram_user_id;
    telegram_name = item.telegram_name;
    amount = js.number_of item.amount;
    transaction_id = item.transaction_id;
    timestamp = item.timestamp;
    bank_name = item.bank_name;
    confidence = item.confidence;
    is_duplicate = item.is_duplicate;
    image_url = item.image_url;
    created_at = item.created_at;
  }
