-- ===== src/Transactions/Update/Edits.antt =====
-- What an edit logs, column by column.
use mathlib.Core.Path.{ap₂}
use birr_track_backend.Base.{
  ◌≡◌, inl, inr, refl, ap, ◌∙◌, Bool, true, false, not, Option, none, some, List, [], ◌∷◌, ◌++◌,
  Text, codes, text_eq, keep, if◌then◌else◌, Bool-cases,
}
use birr_track_backend.Js.Numbers.{JsNumber}
use birr_track_backend.Js.Dates.{JsDate}
use birr_track_backend.Transactions.Entities.{Transaction, EditLog}
use birr_track_backend.Transactions.Dto.{Given, absent, null, given, UpdateTransactionDto}
use birr_track_backend.Transactions.Fields.{
  EditableField, amount, transaction_id, timestamp, bank_name, confidence, image_url, is_present,
  text_of, is_given, get_update_fields, read_dto_field, read_row_field,
}
use birr_track_backend.Transactions.Update.{same_value, log_of}
use birr_track_backend.Transactions.Update.Audit.{is_changed, logs_of}

-- Two texts, or nulls, that differ.
abbrev differ : Option Text → Option Text → Bool
differ none none = false
differ (some a) (some b) = not (text_eq a b)
differ _ _ = true

abbrev pub entry : Text → Text → Text → Option Text → Option Text → EditLog
entry id edited_by name old new = record {
  transaction_id = id;
  field_name = name;
  old_value = old;
  new_value = new;
  edited_by = edited_by;
}

abbrev log_if : Bool → EditLog → List EditLog
log_if true l = l ∷ []
log_if false l = []

-- The log of one column, if the request gives it and its text is not the old one.
abbrev pub logged :
    {A : Type 0} → Text → Text → Text → Option Text → (A → Text) → Given A → List EditLog
logged id edited_by name old text absent = []
logged id edited_by name old text null = log_if (differ old none) (entry id edited_by name old none)
logged id edited_by name old text (given a) =
    log_if (differ old (some (text a))) (entry id edited_by name old (some (text a)))

module _ {Num Time : Type 0} ⦃js : JsNumber Num⦄ ⦃dates : JsDate Time⦄ where
  -- The logs of an edit, in the order of the columns.
  unfoldable pub edits : Transaction Num Time → UpdateTransactionDto Num → Text → List EditLog
  edits row dto edited_by =
      logged row.id edited_by (codes "amount") (some row.amount) js.string_of dto.amount
      ++ (logged row.id edited_by (codes "transactionId") (some row.transaction_id) (λ t. t)
            dto.transaction_id
          ++ (logged row.id edited_by (codes "timestamp") (some (dates.iso_of row.timestamp))
                (λ t. t) dto.timestamp
              ++ (logged row.id edited_by (codes "bankName") (some row.bank_name) (λ t. t)
                    dto.bank_name
                  ++ (logged row.id edited_by (codes "confidence")
                        (some (js.string_of row.confidence)) js.string_of dto.confidence
                      ++ (logged row.id edited_by (codes "imageUrl") row.image_url (λ t. t)
                            dto.image_url
                          ++ [])))))

differ_lem : (a b : Option Text) → not (same_value a b) ≡ differ a b
unfolding same_value
differ_lem none none = refl
differ_lem none (some b) = refl
differ_lem (some a) none = refl
differ_lem (some a) (some b) = refl

-- What the loop over the fields makes of one of them.
abbrev log_of_value :
    {A : Type 0} → Text → Text → Text → Option Text → (A → Text) → Given A → List EditLog
log_of_value id edited_by name old text value =
    if is_present value
    then log_if (not (same_value old (text_of text value)))
        (entry id edited_by name old (text_of text value))
    else []

logged_lem :
    {A : Type 0} (id edited_by name : Text) (old : Option Text) (text : A → Text) (value : Given A)
    → log_of_value id edited_by name old text value ≡ logged id edited_by name old text value
logged_lem id edited_by name old text absent = refl
logged_lem id edited_by name old text null =
    ap (λ b. log_if b (entry id edited_by name old none)) (differ_lem old none)
logged_lem id edited_by name old text (given a) =
    ap (λ b. log_if b (entry id edited_by name old (some (text a))))
      (differ_lem old (some (text a)))

append_same : {a b c d : List EditLog} → a ≡ b → c ≡ d → (a ++ c) ≡ (b ++ d)
append_same p q = ap₂ (λ x y. x ++ y) p q

module _ {Num Time : Type 0} ⦃js : JsNumber Num⦄ ⦃dates : JsDate Time⦄ where
  logs_of-step :
      (row : Transaction Num Time) (dto : UpdateTransactionDto Num) (edited_by : Text)
      (f : EditableField) (fs : List EditableField)
      → logs_of row dto edited_by (keep (is_given dto) (f ∷ fs))
        ≡ (if is_given dto f
            then log_if (is_changed row dto f) (log_of row dto edited_by f)
            else [])
          ++ logs_of row dto edited_by (keep (is_given dto) fs)
  logs_of-step row dto edited_by f fs = elim (Bool-cases (is_given dto f)) [
    | inr left_out ↦ rw left_out refl
    | inl here ↦ elim (Bool-cases (is_changed row dto f)) [
      | inl changed ↦ rw (here, changed) refl
      | inr same ↦ rw (here, same) refl
    ]
  ]

  pub logs_of-edits :
      (row : Transaction Num Time) (dto : UpdateTransactionDto Num) (edited_by : Text)
      → logs_of row dto edited_by (get_update_fields dto) ≡ edits row dto edited_by
  unfolding get_update_fields is_given read_row_field read_dto_field edits
  logs_of-edits row dto edited_by =
      let step = logs_of-step row dto edited_by in
      step amount (transaction_id ∷ timestamp ∷ bank_name ∷ confidence ∷ image_url ∷ [])
      ∙ append_same
          (logged_lem row.id edited_by (codes "amount") (some row.amount) js.string_of dto.amount)
          (step transaction_id (timestamp ∷ bank_name ∷ confidence ∷ image_url ∷ [])
            ∙ append_same
                (logged_lem row.id edited_by (codes "transactionId") (some row.transaction_id)
                  (λ t. t) dto.transaction_id)
                (step timestamp (bank_name ∷ confidence ∷ image_url ∷ [])
                  ∙ append_same
                      (logged_lem row.id edited_by (codes "timestamp")
                        (some (dates.iso_of row.timestamp)) (λ t. t) dto.timestamp)
                      (step bank_name (confidence ∷ image_url ∷ [])
                        ∙ append_same
                            (logged_lem row.id edited_by (codes "bankName") (some row.bank_name)
                              (λ t. t) dto.bank_name)
                            (step confidence (image_url ∷ [])
                              ∙ append_same
                                  (logged_lem row.id edited_by (codes "confidence")
                                    (some (js.string_of row.confidence)) js.string_of
                                    dto.confidence)
                                  (step image_url []
                                    ∙ append_same
                                        (logged_lem row.id edited_by (codes "imageUrl")
                                          row.image_url (λ t. t) dto.image_url)
                                        refl)))))
