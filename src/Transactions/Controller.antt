-- ===== src/Transactions/Controller.antt =====
-- The handlers of src/transactions/transactions.controller.ts but for `PATCH`, which is in
-- Transactions.Update. The pipe has validated their arguments.
use birr_track_backend.Base.{ℕ, ◌≡◌, inl, inr, sym, ap, subst, ◌∙◌, ◌++◌, Text, codes, List}
use birr_track_backend.Base.Results.{ok}
use birr_track_backend.Base.Effects.{M, ◌>>=◌, pure, Call-cases, ok_pair, err-ne-ok}
use birr_track_backend.Js.Numbers.{JsNumber, decimal}
use birr_track_backend.Js.Dates.{JsDate}
use birr_track_backend.Transactions.Entities.{Transaction, EditLog}
use birr_track_backend.Transactions.Dto.{
  CreateTransactionDto, GetTransactionsQueryDto, TransactionSummaryDto,
}
use birr_track_backend.Transactions.Store.{Store}
use birr_track_backend.Transactions.Laws.{IsStore}
use birr_track_backend.Transactions.Query.{Page, find_all, get_summary}
use birr_track_backend.Transactions.Service.{Worksheet, create, export}
use birr_track_backend.Transactions.Service.Exported.{IsSheet, export-IsSheet}

abbrev excel_content_type : Text
excel_content_type = codes "application/vnd.openxmlformats-officedocument.spreadsheetml.sheet"

abbrev excel_file_prefix : Text
excel_file_prefix = codes "transactions-export"

-- `StreamableFile`, with the headers that are set on the response.
pub record StreamableFile (Num : Type 0) : Type 0 where
  pub content_type : Text
  pub content_disposition : Text
  pub content : Worksheet Num

-- `attachment; filename="${fileName}"`, at a time.
abbrev disposition : ℕ → Text
disposition now =
    codes "attachment; filename=\""
    ++ (excel_file_prefix ++ (codes "-" ++ (decimal now ++ codes ".xlsx\"")))

module _ {S Num Time : Type 0} ⦃js : JsNumber Num⦄ ⦃dates : JsDate Time⦄
    (store : Store S Num Time) where
  abbrev pub get_transactions : GetTransactionsQueryDto → M S (Page Num Time)
  get_transactions query_dto = find_all store query_dto

  abbrev pub get_transactions_summary : GetTransactionsQueryDto → M S (TransactionSummaryDto Num)
  get_transactions_summary query_dto = get_summary store query_dto

  -- `exportTransactions`, with the answer of `Date.now()`.
  unfoldable pub export_transactions : ℕ → GetTransactionsQueryDto → M S (StreamableFile Num)
  export_transactions now query_dto = do
    buffer ← export store query_dto
    pure (record {
      content_type = excel_content_type;
      content_disposition = disposition now;
      content = buffer;
    })

  abbrev pub create_for_internal_testing : CreateTransactionDto Num → M S (Transaction Num Time)
  create_for_internal_testing create_transaction_dto = create store create_transaction_dto

module _ {S Num Time : Type 0} ⦃js : JsNumber Num⦄ ⦃dates : JsDate Time⦄ (store : Store S Num Time)
    {rows : S → List (Transaction Num Time)} {logs : S → List EditLog}
    (laws : IsStore store rows logs) where
  -- The file of an export that is answered holds the sheet of its request, and nothing has changed.
  pub export_transactions-IsSheet :
      (now : ℕ) (dto : GetTransactionsQueryDto) (s s' : S) (file : StreamableFile Num)
      → export_transactions store now dto s ≡ (ok file, s')
      → IsSheet store laws dto s file.content × (s' ≡ s)
  unfolding export_transactions
  export_transactions-IsSheet now dto s s' file e = elim (Call-cases (export store dto s)) [
    | inr (m, s1, failed) ↦ absurd (err-ne-ok (rw failed at e))
    | inl (sheet, s1, made) ↦
        let (file_is, s_is) = ok_pair (rw made at e) in
        let (is_sheet, same) = export-IsSheet store laws dto s s1 sheet made in
        (
          subst (IsSheet store laws dto s) (ap (λ (f : StreamableFile Num). f.content) file_is)
              is_sheet,
          sym s_is ∙ same,
        )
  ]
