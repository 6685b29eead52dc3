-- ===== src/Transactions/Entities.antt =====
-- The rows of src/transactions/entities, and what the repositories are handed. The relations
-- `editLogs` and `transaction` are never loaded by the program and are left out.
use birr_track_backend.Base.{Bool, Option, Text}

module _ (Num Time : Type 0) where
  -- src/transactions/entities/transaction.entity.ts
  pub record Transaction : Type 0 where
    pub id : Text
    pub telegram_user_id : Text
    pub telegram_name : Text
    pub amount : Text
    pub transaction_id : Text
    pub timestamp : Time
    pub bank_name : Text
    pub confidence : Num
    pub is_duplicate : Bool
    pub image_url : Option Text
    pub created_at : Time

  -- A transaction before it is saved: no id and no creation date, and the date may be invalid.
  pub record NewTransaction : Type 0 where
    pub telegram_user_id : Text
    pub telegram_name : Text
    pub amount : Text
    pub transaction_id : Text
    pub timestamp : Option Time
    pub bank_name : Text
    pub confidence : Num
    pub is_duplicate : Bool
    pub image_url : Option Text

  -- `TransactionResponse`: the amount as a number.
  pub record TransactionResponse : Type 0 where
    pub id : Text
    pub telegram_user_id : Text
    pub telegram_name : Text
    pub amount : Num
    pub transaction_id : Text
    pub timestamp : Time
    pub bank_name : Text
    pub confidence : Num
    pub is_duplicate : Bool
    pub image_url : Option Text
    pub created_at : Time

-- src/transactions/entities/edit-log.entity.ts, without the generated `id` and `editedAt`.
pub record EditLog : Type 0 where
  pub transaction_id : Text
  pub field_name : Text
  pub old_value : Option Text
  pub new_value : Option Text
  pub edited_by : Text
