-- ===== src/Transactions/Update/Nulls.antt =====
-- Edits whose logs tell something else than what became of the row.
use mathlib.Core.List.{append_assoc}
use birr_track_backend.Base.{
  inl, inr, ◌≡◌, ◌≢◌, refl, sym, ap, subst, ◌∙◌, false, none, some, List, [], ◌∷◌, ◌++◌, Text,
  codes, text_eq, text_eq_iff, find_first, Bool-cases,
}
use birr_track_backend.Base.Results.{ok}
use birr_track_backend.Js.Numbers.{JsNumber}
use birr_track_backend.Js.Dates.{JsDate}
use birr_track_backend.Transactions.Entities.{Transaction, TransactionResponse, EditLog}
use birr_track_backend.Transactions.Dto.{absent, null, given, UpdateTransactionDto}
use birr_track_backend.Transactions.Store.{Store, has_id}
use birr_track_backend.Transactions.Laws.{IsStore}
use birr_track_backend.Transactions.Update.{update}
use birr_track_backend.Transactions.Update.Audit.{some_same}
use birr_track_backend.Transactions.Update.Described.{IsEditedRow}
use birr_track_backend.Transactions.Update.Edits.{entry, logged, edits}
use birr_track_backend.Transactions.Update.Outcome.{untouched, written, update_ok}

differs : (a b : Text) → a ≢ b → text_eq a b ≡ false
differs a b h = elim (Bool-cases (text_eq a b)) [
  | inl e ↦ absurd (h ((text_eq_iff a b).0 e))
  | inr e ↦ e
]

-- A request that gives an amount and nothing else.
abbrev pub only_amount : {Num : Type 0} → Num → UpdateTransactionDto Num
only_amount n = record {
  amount = given n;
  transaction_id = absent;
  timestamp = absent;
  bank_name = absent;
  confidence = absent;
  image_url = absent;
}

module _ {Num Time : Type 0} ⦃js : JsNumber Num⦄ ⦃dates : JsDate Time⦄ where
  -- A row that an edit of the amount only leaves with its amount is the row it was.
  same_row :
      (n : Num) (before after : Transaction Num Time)
      → js.to_fixed_2 n ≡ before.amount
      → IsEditedRow (only_amount n) before after
      → after ≡ before
  same_row n before after same e = λ i. record {
    id = e.id i;
    telegram_user_id = e.telegram_user_id i;
    telegram_name = e.telegram_name i;
    amount = (e.amount.taken n refl ∙ same) i;
    transaction_id = e.transaction_id.kept refl i;
    timestamp = e.timestamp.kept refl i;
    bank_name = e.bank_name.kept refl i;
    confidence = e.confidence.kept refl i;
    is_duplicate = e.is_duplicate i;
    image_url = e.image_url.kept refl i;
    created_at = e.created_at i;
  }

  amount_edits :
      (row : Transaction Num Time) (n : Num) (edited_by : Text)
      → js.string_of n ≢ row.amount
      → edits row (only_amount n) edited_by
        ≡ entry row.id edited_by (codes "amount") (some row.amount) (some (js.string_of n)) ∷ []
  unfolding edits
  amount_edits row n edited_by other =
      rw (differs row.amount (js.string_of n) (λ e. other (sym e))) refl

  -- The logs of a request with a null for the timestamp.
  null_edits :
      (row : Transaction Num Time) (dto : UpdateTransactionDto Num) (edited_by : Text)
      → dto.timestamp ≡ null
      → (before : List EditLog) × (after : List EditLog) × (edits row dto edited_by
          ≡ before
            ++ entry row.id edited_by (codes "timestamp") (some (dates.iso_of row.timestamp)) none
              ∷ after)
  unfolding edits
  null_edits row dto edited_by is_null =
      let amount_log : List EditLog =
        logged row.id edited_by (codes "amount") (some row.amount) js.string_of dto.amount in
      let id_log : List EditLog =
        logged row.id edited_by (codes "transactionId") (some row.transaction_id) (λ t. t)
          dto.transaction_id in
      let later : List EditLog =
        logged row.id edited_by (codes "bankName") (some row.bank_name) (λ t. t) dto.bank_name
        ++ (logged row.id edited_by (codes "confidence") (some (js.string_of row.confidence))
              js.string_of dto.confidence
            ++ (logged row.id edited_by (codes "imageUrl") row.image_url (λ t. t) dto.image_url
                ++ [])) in
      (
        amount_log ++ id_log,
        later,
        rw is_null (
            sym (
              append_assoc amount_log id_log (
                entry row.id edited_by (codes "timestamp") (some (dates.iso_of row.timestamp)) none
                ∷ later))),
      )

module _ {S Num Time : Type 0} ⦃js : JsNumber Num⦄ ⦃dates : JsDate Time⦄ (store : Store S Num Time)
    {rows : S → List (Transaction Num Time)} {logs : S → List EditLog}
    (laws : IsStore store rows logs) where
  -- An update with the stored amount, and nothing else, that returns leaves the row as it was, but
  -- logs a change of the amount whenever the number's own text differs from the stored text with two
  -- places: `String(100)` is "100", and the column holds "100.00".
  pub repeated_amount_logged :
      (id : Text) (n : Num) (edited_by : Text) (s s' : S) (r : TransactionResponse Num Time)
      (row : Transaction Num Time)
      → update store id (only_amount n) edited_by s ≡ (ok r, s')
      → find_first (has_id id) (rows s) ≡ some row
      → js.to_fixed_2 n ≡ row.amount
      → js.string_of n ≢ row.amount
      → (find_first (has_id id) (rows s') ≡ some row)
        × (logs s'
            ≡ logs s
              ++ entry row.id edited_by (codes "amount") (some row.amount) (some (js.string_of n))
                ∷ [])
  repeated_amount_logged id n edited_by s s' r row e found same other =
      elim (update_ok store laws id (only_amount n) edited_by s s' r e) [
        | untouched existing is empty _ _ ↦ absurd (cc empty.amount)
        | written existing after is some_given edited back _ logged _ ↦
            let row_is : existing ≡ row = some_same (sym is ∙ found) in
            let amount_is : js.to_fixed_2 n ≡ existing.amount =
              same ∙ ap (λ (z : Transaction Num Time). z.amount) (sym row_is) in
            (
              back ∙ ap some (same_row n existing after amount_is edited ∙ row_is),
              logged
                  ∙ ap (λ l. logs s ++ l)
                      (subst
                        (λ z.
                          edits z (only_amount n) edited_by
                          ≡ entry row.id edited_by (codes "amount") (some row.amount)
                              (some (js.string_of n))
                            ∷ [])
                        (sym row_is) (amount_edits row n edited_by other)),
            )
      ]

  -- An update whose request has a null for the timestamp, and that returns, sets the timestamp of the
  -- row to 1970-01-01, and logs a change of the timestamp to null.
  pub null_timestamp_resets :
      (id : Text) (dto : UpdateTransactionDto Num) (edited_by : Text) (s s' : S)
      (r : TransactionResponse Num Time)
      → update store id dto edited_by s ≡ (ok r, s')
      → dto.timestamp ≡ null
      → (before : Transaction Num Time) × (after : Transaction Num Time) × (find_first
            (has_id id)
            (rows s)
          ≡ some before)
        × (find_first (has_id id) (rows s') ≡ some after)
        × (dates.iso_of after.timestamp ≡ codes "1970-01-01T00:00:00.000Z")
        × ((earlier : List EditLog) × (later : List EditLog) × (logs s'
              ≡ logs s
                ++ (earlier
                    ++ entry before.id edited_by
                        (codes "timestamp")
                        (some (dates.iso_of before.timestamp))
                        none
                      ∷ later)))
  null_timestamp_resets id dto edited_by s s' r e is_null =
      elim (update_ok store laws id dto edited_by s s' r e) [
        | untouched existing is empty _ _ ↦ absurd (cc (empty.timestamp, is_null))
        | written existing after is some_given edited back _ logged _ ↦
            let (earlier, later, split) = null_edits existing dto edited_by is_null in
            (
              existing,
              after,
              is,
              back,
              ap dates.iso_of (edited.timestamp_null is_null) ∙ dates.epoch_iso,
              (earlier, later, logged ∙ ap (λ l. logs s ++ l) split),
            )
      ]
