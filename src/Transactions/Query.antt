-- ===== src/Transactions/Query.antt =====
-- `buildFilteredQuery`, `findAll`, `getSummary` and `export` of
-- src/transactions/transactions.service.ts, but for the layout of the workbook.
pub mod Filter
pub mod Pages
pub mod Ranks
pub mod Paging
pub mod Summary
use birr_track_backend.Base.{
  ℕ, ◌-◌, ◌*◌, Option, none, some, List, [], ◌∷◌, ◌++◌, map, Text, codes, text_eq, if◌then◌else◌,
}
use birr_track_backend.Base.Effects.{M, continue, ◌>>=◌, pure}
use birr_track_backend.Js.Numbers.{JsNumber}
use birr_track_backend.Js.Dates.{JsDate}
use birr_track_backend.Transactions.Entities.{Transaction, TransactionResponse}
use birr_track_backend.Transactions.Dto.{
  GetTransactionsQueryDto, get_effective_limit, TransactionSummaryDto,
}
use birr_track_backend.Transactions.Fields.{to_response}
use birr_track_backend.Transactions.Store.{
  Condition, timestamp_from, timestamp_to, of_user, desc, by_created_at, Aggregate,
  sum_of_amounts_or_zero, count_of_ids, Query, Store,
}

-- `if (text)`: neither missing nor empty.
abbrev pub when_given {ℓ} : {A : Type ℓ} → Option Text → (Text → A) → List A
when_given none f = []
when_given (some []) f = []
when_given (some (c ∷ s)) f = f (c ∷ s) ∷ []

-- The `select` and `addSelect` of the summary.
abbrev pub summary_columns : List (Aggregate × Text)
summary_columns =
    (sum_of_amounts_or_zero, codes "totalRevenue") ∷ (count_of_ids, codes "transactionCount") ∷ []

-- A property of an object.
unfoldable pub lookup : Text → List (Text × Text) → Option Text
lookup key [] = none
lookup key ((k, v) ∷ entries) =
    let rest = lookup key entries in if text_eq k key then some v else rest

-- What `findAll` returns.
pub record Page (Num Time : Type 0) : Type 0 where
  pub page : ℕ
  pub limit : ℕ
  pub total : ℕ
  pub items : List (TransactionResponse Num Time)

module _ {Time : Type 0} ⦃dates : JsDate Time⦄ where
  unfoldable pub build_filtered_query : GetTransactionsQueryDto → List (Condition Time)
  build_filtered_query dto =
      when_given dto.start_date (λ t. timestamp_from (dates.date_of t))
      ++ (when_given dto.end_date (λ t. timestamp_to (dates.date_of t))
          ++ when_given dto.telegram_user_id of_user)

  -- The page of a request; `page` is 1 at least, by the validation of the request.
  abbrev pub page_query : GetTransactionsQueryDto → Query Time
  page_query dto = record {
    where_all = build_filtered_query dto;
    order_by = some (by_created_at desc);
    skip = (dto.page - 1) * get_effective_limit dto;
    limit = some (get_effective_limit dto);
  }

module _ {S Num Time : Type 0} ⦃js : JsNumber Num⦄ ⦃dates : JsDate Time⦄
    (store : Store S Num Time) where
  unfoldable pub find_all : GetTransactionsQueryDto → M S (Page Num Time)
  find_all dto = do
    found ← store.get_many_and_count (page_query dto)
    pure (record {
      page = dto.page;
      limit = get_effective_limit dto;
      total = found.1;
      items = map to_response found.0;
    })

  -- `Number(aggregateResult?.key ?? 0)`
  abbrev aggregate_number : Text → Option (List (Text × Text)) → Num
  aggregate_number key none = js.number_of (codes "0")
  aggregate_number key (some result) = elim (lookup key result) [
    | some value ↦ js.number_of value
    | none ↦ js.number_of (codes "0")
  ]

  unfoldable pub get_summary : GetTransactionsQueryDto → M S (TransactionSummaryDto Num)
  unfolding lookup
  get_summary dto = do
    aggregate_result ← store.get_raw_one (build_filtered_query dto) summary_columns
    pure (record {
      total_revenue = aggregate_number (codes "totalRevenue") aggregate_result;
      transaction_count = aggregate_number (codes "transactionCount") aggregate_result;
    })
