-- ===== src/Transactions/Service/Duplicates.antt =====
-- The key of a stored receipt, by which the next lookup of a duplicate goes.
use birr_track_backend.Base.{◌≡◌, true, Text, text_eq_refl}
use birr_track_backend.Js.Numbers.{JsNumber}
use birr_track_backend.Js.Dates.{JsDate}
use birr_track_backend.Transactions.Dto.{CreateTransactionDto}
use birr_track_backend.Transactions.Store.{has_key, inserted}
use birr_track_backend.Transactions.Service.{new_transaction}

module _ {Num Time : Type 0} ⦃js : JsNumber Num⦄ ⦃dates : JsDate Time⦄ where
  pub inserted-has_key :
      (dto : CreateTransactionDto Num) (id : Text) (t c : Time)
      → has_key dto.transaction_id
          (js.to_fixed_2 dto.amount)
          t
          (inserted (new_transaction dto) id t c)
        ≡ true
  unfolding has_key inserted new_transaction
  inserted-has_key dto id t c =
      rw (
        text_eq_refl dto.transaction_id,
        text_eq_refl (js.to_fixed_2 dto.amount),
        dates.same_refl t,
      )
