-- ===== src/Transactions/Responses.antt =====
-- What a response tells of a row, column by column.
use birr_track_backend.Base.{◌≡◌, refl, List, [], ◌∷◌, map}
use birr_track_backend.Js.Numbers.{JsNumber}
use birr_track_backend.Js.Dates.{JsDate}
use birr_track_backend.Transactions.Entities.{Transaction, TransactionResponse}
use birr_track_backend.Transactions.Fields.{to_response}

module _ {Num Time : Type 0} ⦃js : JsNumber Num⦄ where
  -- Every column as it is stored, but the amount as a number.
  pub record IsResponse (row : Transaction Num Time) (r : TransactionResponse Num Time)
      : Type 0 where
    pub id : r.id ≡ row.id
    pub telegram_user_id : r.telegram_user_id ≡ row.telegram_user_id
    pub telegram_name : r.telegram_name ≡ row.telegram_name
    pub amount : r.amount ≡ js.number_of row.amount
    pub transaction_id : r.transaction_id ≡ row.transaction_id
    pub timestamp : r.timestamp ≡ row.timestamp
    pub bank_name : r.bank_name ≡ row.bank_name
    pub confidence : r.confidence ≡ row.confidence
    pub is_duplicate : r.is_duplicate ≡ row.is_duplicate
    pub image_url : r.image_url ≡ row.image_url
    pub created_at : r.created_at ≡ row.created_at

  -- One response for each row, in their order.
  abbrev pub AreResponses :
      List (Transaction Num Time) → List (TransactionResponse Num Time) → Type 0
  AreResponses [] [] = Unit
  AreResponses (row ∷ rows) (r ∷ rs) = IsResponse row r × AreResponses rows rs
  AreResponses _ _ = ⊥

module _ {Num Time : Type 0} ⦃js : JsNumber Num⦄ ⦃dates : JsDate Time⦄ where
  pub to_response-IsResponse : (row : Transaction Num Time) → IsResponse row (to_response row)
  unfolding to_response
  to_response-IsResponse row = record {
    id = refl;
    telegram_user_id = refl;
    telegram_name = refl;
    amount = refl;
    transaction_id = refl;
    timestamp = refl;
    bank_name = refl;
    confidence = refl;
    is_duplicate = refl;
    image_url = refl;
    created_at = refl;
  }

  pub map-to_response-AreResponses :
      (rows : List (Transaction Num Time)) → AreResponses rows (map to_response rows)
  map-to_response-AreResponses [] = tt
  map-to_response-AreResponses (row ∷ rows) =
      (to_response-IsResponse row, map-to_response-AreResponses rows)
