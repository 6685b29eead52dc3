-- ===== src/Transactions/Update.antt =====
-- `update` of src/transactions/transactions.service.ts, which also writes the edit logs, and the
-- handler of `PATCH /transactions/:id` in src/transactions/transactions.controller.ts.
pub mod Audit
pub mod Described
pub mod Edits
pub mod Outcome
pub mod Nulls
pub mod Requests
use birr_track_backend.Base.{
  Bool, true, false, Option, none, some, List, [], ◌∷◌, ◌++◌, Text, codes, text_eq, trim,
  if◌then◌else◌,
}
use birr_track_backend.Base.Results.{Result, ok, err}
use birr_track_backend.Base.Effects.{M, continue, ◌>>=◌, ◌>>◌, pure, throw, lift}
use birr_track_backend.Js.Numbers.{JsNumber}
use birr_track_backend.Js.Dates.{JsDate}
use birr_track_backend.Transactions.Entities.{Transaction, TransactionResponse, EditLog}
use birr_track_backend.Transactions.Dto.{UpdateTransactionDto}
use birr_track_backend.Transactions.Fields.{
  EditableField, field_name, Patch, get_update_fields, read_dto_field, read_row_field,
  prepare_update_payload, to_response,
}
use birr_track_backend.Transactions.Store.{Store}

-- `oldValue === newValue`, of texts or null.
unfoldable pub same_value : Option Text → Option Text → Bool
same_value none none = true
same_value (some a) (some b) = text_eq a b
same_value _ _ = false

unfoldable pub not_found : Text → Text
not_found id = codes "Transaction " ++ id ++ codes " not found"

unfoldable pub not_found_after_update : Text → Text
not_found_after_update id = codes "Transaction " ++ id ++ codes " not found after update"

abbrev pub default_editor : Text
default_editor = codes "system"

abbrev pub or_default_editor : Text → Text
or_default_editor [] = default_editor
or_default_editor (c ∷ s) = c ∷ s

-- `editedByHeader?.trim() || DEFAULT_EDITOR`.
unfoldable pub editor_of : Option Text → Text
editor_of none = default_editor
editor_of (some header) = or_default_editor (trim header)

module _ {Num Time : Type 0} ⦃js : JsNumber Num⦄ ⦃dates : JsDate Time⦄ where
  abbrev pub log_of :
      Transaction Num Time → UpdateTransactionDto Num → Text → EditableField → EditLog
  log_of existing dto edited_by field = record {
    transaction_id = existing.id;
    field_name = field_name field;
    old_value = read_row_field existing field;
    new_value = read_dto_field dto field;
    edited_by = edited_by;
  }

module _ {S Num Time : Type 0} ⦃js : JsNumber Num⦄ ⦃dates : JsDate Time⦄
    (store : Store S Num Time) where
  -- The loop over the fields: one log for each whose two values differ.
  unfoldable pub log_changes :
      Transaction Num Time → UpdateTransactionDto Num → Text → List EditableField → M S (Unit {0})
  log_changes existing dto edited_by [] = pure tt
  log_changes existing dto edited_by (field ∷ fields) =
      let rest = log_changes existing dto edited_by fields in
      if same_value (read_row_field existing field) (read_dto_field dto field)
      then rest
      else do store.save_log (log_of existing dto edited_by field); rest

  abbrev saved_or_throw : Text → Option (Transaction Num Time) → M S (Transaction Num Time)
  saved_or_throw id (some saved) = pure saved
  saved_or_throw id none = throw (not_found_after_update id)

  -- The callback of `dataSource.transaction`.
  unfoldable pub apply_update :
      Text → Transaction Num Time → UpdateTransactionDto Num → Text → M S (Transaction Num Time)
  apply_update id existing dto edited_by = do
    log_changes existing dto edited_by (get_update_fields dto)
    prepared_update ← lift (prepare_update_payload dto)
    store.update existing.id prepared_update
    saved ← store.find_by_id existing.id
    saved_or_throw id saved

  abbrev update_fields :
      Text
      → Transaction Num Time
      → UpdateTransactionDto Num
      → Text
      → List EditableField
      → M S (TransactionResponse Num Time)
  update_fields id existing dto edited_by [] = pure (to_response existing)
  update_fields id existing dto edited_by (_ ∷ _) = do
    updated ← store.in_transaction (apply_update id existing dto edited_by)
    pure (to_response updated)

  abbrev update_existing :
      Text
      → UpdateTransactionDto Num
      → Text
      → Option (Transaction Num Time)
      → M S (TransactionResponse Num Time)
  update_existing id dto edited_by none = throw (not_found id)
  update_existing id dto edited_by (some existing) =
      update_fields id existing dto edited_by (get_update_fields dto)

  unfoldable pub update :
      Text → UpdateTransactionDto Num → Text → M S (TransactionResponse Num Time)
  update id dto edited_by = do
    existing ← store.find_by_id id
    update_existing id dto edited_by existing

  -- `PATCH /transactions/:id`, with the header `x-editor`.
  unfoldable pub update_transaction :
      Text → UpdateTransactionDto Num → Option Text → M S (TransactionResponse Num Time)
  unfolding editor_of
  update_transaction id dto edited_by_header = update id dto (editor_of edited_by_header)
