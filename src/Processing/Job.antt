-- ===== src/Processing/Job.antt =====
-- `processImageJob` of src/processing/processing.service.ts, the queue's payload, and
-- src/websocket/transaction-events.gateway.ts, whose events are kept in a list.
pub mod Saved
pub mod Endings
pub mod Repeats
use birr_track_backend.Base.{
  Bool, true, false, Option, none, some, List, [], ◌∷◌, ◌++◌, Text, codes, is_some,
}
use birr_track_backend.Base.Results.{Result, ok, err}
use birr_track_backend.Base.Effects.{M, continue, ◌>>=◌, ◌>>◌, pure, lift}
use birr_track_backend.Js.Numbers.{JsNumber}
use birr_track_backend.Js.Dates.{JsDate}
use birr_track_backend.Parsing.Service.{ParsedTransaction}
use birr_track_backend.Transactions.Entities.{Transaction, TransactionResponse}
use birr_track_backend.Transactions.Dto.{CreateTransactionDto}
use birr_track_backend.Transactions.Fields.{to_response}
use birr_track_backend.Transactions.Store.{Store}
use birr_track_backend.Transactions.Service.{create, find_duplicate}
use birr_track_backend.Processing.Reading.{ImageProcessingJobPayload, World, read_receipt}

-- The database, and the `transaction:new` events that were emitted.
pub record Backend (S Num Time : Type 0) : Type 0 where
  pub db : S
  pub emitted : List (TransactionResponse Num Time)

-- What the critical fields make of a job: none may be null.
pub record Critical (Num : Type 0) : Type 0 where
  pub amount : Num
  pub transaction_id : Text
  pub timestamp : Text
  pub bank_name : Text

module _ {Num : Type 0} where
  abbrev critical_of : Option Num → Option Text → Option Text → Option Text → Option (Critical Num)
  critical_of (some a) (some i) (some t) (some b) =
      some (record { amount = a; transaction_id = i; timestamp = t; bank_name = b })
  critical_of _ _ _ _ = none

  unfoldable pub critical_fields : ParsedTransaction Num → Option (Critical Num)
  critical_fields p = critical_of p.amount p.transaction_id p.timestamp p.bank_name

  unfoldable pub create_dto :
      ImageProcessingJobPayload → Text → Critical Num → Num → Bool → CreateTransactionDto Num
  create_dto payload file_url fields confidence is_duplicate = record {
    telegram_user_id = payload.telegram_user_id;
    telegram_name = payload.telegram_name;
    amount = fields.amount;
    transaction_id = fields.transaction_id;
    timestamp = fields.timestamp;
    bank_name = fields.bank_name;
    confidence = confidence;
    is_duplicate = is_duplicate;
    image_url = some file_url;
  }

module _ {S Num Time : Type 0} where
  -- A call of the database.
  abbrev on_result :
      {A : Type 0} → Backend S Num Time → Result A × S → Result A × Backend S Num Time
  on_result b (r, s) = (r, record b { db = s })

  abbrev pub on_db : {A : Type 0} → M S A → M (Backend S Num Time) A
  on_db m b = on_result b (m b.db)

  -- `emitTransactionNew`.
  abbrev pub emit_transaction_new : TransactionResponse Num Time → M (Backend S Num Time) (Unit {0})
  emit_transaction_new payload b = (ok tt, record b { emitted = b.emitted ++ payload ∷ [] })

module _ {S Num Time : Type 0} ⦃js : JsNumber Num⦄ ⦃dates : JsDate Time⦄
    (store : Store S Num Time) where
  -- The lookup, the insertion and the event of a receipt with all its critical fields.
  unfoldable pub save_receipt :
      ImageProcessingJobPayload → Text → Num → Critical Num → M (Backend S Num Time) (Unit {0})
  save_receipt payload file_url confidence fields = do
    duplicate ← on_db (find_duplicate store fields.transaction_id fields.amount fields.timestamp)
    transaction ←
        on_db (create store (create_dto payload file_url fields confidence (is_some duplicate)))
    emit_transaction_new (to_response transaction)

  -- A receipt that lacks a critical field is skipped.
  abbrev pub save_if_complete :
      ImageProcessingJobPayload
      → Text
      → Num
      → Option (Critical Num)
      → M (Backend S Num Time) (Unit {0})
  save_if_complete payload file_url confidence none = pure tt
  save_if_complete payload file_url confidence (some fields) =
      save_receipt payload file_url confidence fields

  -- `processImageJob`.
  unfoldable pub process_image_job :
      {Image : Type 0}
      → World Num Image
      → ImageProcessingJobPayload
      → M (Backend S Num Time) (Unit {0})
  process_image_job world payload = do
    read ← lift (read_receipt world payload)
    save_if_complete payload read.0 read.1.confidence (critical_fields read.1)
