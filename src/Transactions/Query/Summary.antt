-- ===== src/Transactions/Query/Summary.antt =====
-- The summary of a request beside its listing.
use mathlib.Core.List.{Perm}
use mathlib.Core.List.Perm
use birr_track_backend.Base.{
  inl, inr, ◌≡◌, sym, ap, ◌∙◌, List, [], map, Text, codes, text_eq, length,
}
use birr_track_backend.Base.Results.{ok}
use birr_track_backend.Base.Sums.{length-perm}
use birr_track_backend.Base.Effects.{Call-cases, ok_pair, err-ne-ok}
use birr_track_backend.Js.Numbers.{JsNumber, decimal}
use birr_track_backend.Js.Dates.{JsDate}
use birr_track_backend.Transactions.Entities.{Transaction, EditLog}
use birr_track_backend.Transactions.Dto.{GetTransactionsQueryDto, TransactionSummaryDto}
use birr_track_backend.Transactions.Store.{Store}
use birr_track_backend.Transactions.Laws.{IsStore, IsSumming, amount_of}
use birr_track_backend.Transactions.Query.{
  Page, lookup, summary_columns, build_filtered_query, find_all, get_summary,
}
use birr_track_backend.Transactions.Query.Pages.{wanted, IsPage, find_all-IsPage}

module _ {S Num Time : Type 0} ⦃js : JsNumber Num⦄ ⦃dates : JsDate Time⦄ (store : Store S Num Time)
    {rows : S → List (Transaction Num Time)} {logs : S → List EditLog}
    (laws : IsStore store rows logs) {sum : List Text → Text}
    (summing : IsSumming store rows sum) where
  -- What a summary is of a list of rows: `Number` of the texts of their sum and of their number.
  pub record IsSummaryOf (listed : List (Transaction Num Time)) (r : TransactionSummaryDto Num)
      : Type 0 where
    pub revenue_is : r.total_revenue ≡ js.number_of (sum (map amount_of listed))
    pub no_revenue : listed ≡ [] → r.total_revenue ≡ js.number_of (codes "0")
    pub count_is : r.transaction_count ≡ js.number_of (decimal (length listed))

  summary-IsSummaryOf :
      (listed all : List (Transaction Num Time)) (r : TransactionSummaryDto Num)
      → Perm listed all
      → r.total_revenue ≡ js.number_of (sum (map amount_of all))
      → r.transaction_count ≡ js.number_of (decimal (length all))
      → IsSummaryOf listed r
  summary-IsSummaryOf listed all r p revenue count =
      let same : sum (map amount_of all) ≡ sum (map amount_of listed) =
        sym (summing.sum_perm (map amount_of listed) (map amount_of all) (Perm.map amount_of p)) in
      record {
        revenue_is = revenue ∙ ap js.number_of same;
        no_revenue = λ e.
            revenue
            ∙ ap js.number_of (same ∙ (ap (λ xs. sum (map amount_of xs)) e ∙ summing.sum_none));
        count_is = count ∙ ap (λ n. js.number_of (decimal n)) (sym (length-perm listed all p));
      }

  get_summary_ok :
      (dto : GetTransactionsQueryDto) (s s' : S) (r : TransactionSummaryDto Num)
      → get_summary store dto s ≡ (ok r, s')
      → (r.total_revenue ≡ js.number_of (sum (map amount_of (wanted store laws dto s))))
        × (r.transaction_count ≡ js.number_of (decimal (length (wanted store laws dto s))))
        × (s' ≡ s)
  unfolding get_summary lookup text_eq
  get_summary_ok dto s s' r e =
      elim (Call-cases (store.get_raw_one (build_filtered_query dto) summary_columns s)) [
        | inr (m, s1, failed) ↦ absurd (err-ne-ok (rw failed at e))
        | inl (o, s1, done) ↦
            let (same, o_is) =
              summing.get_raw_one_ok (build_filtered_query dto) summary_columns s s1 o done in
            let (r_is, s_is) = ok_pair (rw (done, o_is) at e) in
            (
              ap (λ (z : TransactionSummaryDto Num). z.total_revenue) (sym r_is),
              ap (λ (z : TransactionSummaryDto Num). z.transaction_count) (sym r_is),
              sym s_is ∙ same,
            )
      ]

  -- A summary and a page of one request, of one state: both return without a change, the page is a
  -- part of a listing of the rows that the request lets through, and the summary is of these rows,
  -- which are as many as the page's total; with no rows, the revenue is 0.
  pub get_summary-IsSummaryOf :
      (dto : GetTransactionsQueryDto) (s s1 s2 : S) (r : TransactionSummaryDto Num)
      (p : Page Num Time)
      → get_summary store dto s ≡ (ok r, s1)
      → find_all store dto s ≡ (ok p, s2)
      → (is : IsPage store laws dto s p) × IsSummaryOf is.listing r
        × (r.transaction_count ≡ js.number_of (decimal p.total))
        × (s1 ≡ s)
        × (s2 ≡ s)
  get_summary-IsSummaryOf dto s s1 s2 r p e h =
      let (revenue, count, same) = get_summary_ok dto s s1 r e in
      let (is, same2) = find_all-IsPage store laws dto s s2 p h in
      (
        is,
        summary-IsSummaryOf is.listing (wanted store laws dto s) r is.complete revenue count,
        count ∙ ap (λ n. js.number_of (decimal n)) (sym is.total_is),
        same,
        same2,
      )
