-- ===== src/Tests/Queries.antt =====
-- The theorems on the queries of src/transactions, at a table of two rows.
use birr_track_backend.Base.{
  zero, suc, ◌<◌, arith, ℕ, ap, sym, ◌≡◌, refl, false, none, some, [], ◌∷◌, map, codes,
}
use birr_track_backend.Base.Results.{ok}
use birr_track_backend.Base.Sums.{sum_by-perm}
use birr_track_backend.Base.Effects.{ok_pair}
use birr_track_backend.Tests.Decimal.{hundredths, read_decimal}
use birr_track_backend.Js.Numbers.{decimal}
use birr_track_backend.Tests.Database.{
  day_numbers, memory, memory-IsStore, rows_of, sum_text, sum_of,
}
use birr_track_backend.Transactions.Dto.{GetTransactionsQueryDto, TransactionSummaryDto}
use birr_track_backend.Transactions.Query.{Page, find_all, get_summary}
use birr_track_backend.Transactions.Laws.{IsSumming}
use birr_track_backend.Transactions.Query.Summary.{IsSummaryOf, get_summary-IsSummaryOf}
use birr_track_backend.Transactions.Query.Ranks.{ties}
use birr_track_backend.Transactions.Query.Paging.{at_page, ArePages, find_all-ArePages}
use birr_track_backend.Transactions.Query.Pages.{wanted, IsPage, find_all-IsPage}
use birr_track_backend.Transactions.Service.{columns, Worksheet, worksheet_row, export}
use birr_track_backend.Transactions.Service.Exported.{IsSheet, export-IsSheet}
use birr_track_backend.Tests.Transactions.{tables, row, two_rows, response_of}

abbrev one_each : GetTransactionsQueryDto
one_each = record {
  page = 1;
  limit = 1;
  start_date = none;
  end_date = none;
  telegram_user_id = some (codes "7");
}

-- The listing is newest first.
abbrev first_page : Page ℕ ℕ
first_page = record {
  page = 1;
  limit = 1;
  total = 2;
  items = response_of (row (codes "1") (codes "20.50") 6 false) ∷ [];
}

abbrev page_at : ℕ → Page ℕ ℕ
page_at zero = first_page
page_at (suc k) = record {
  page = suc (suc k);
  limit = 1;
  total = 2;
  items = response_of (row (codes "0") (codes "100.00") 5 false) ∷ [];
}

pages_run :
    (k : ℕ) → k < 2 → find_all memory (at_page one_each k) two_rows ≡ (ok (page_at k), two_rows)
unfolding tables
pages_run zero lt = refl
pages_run (suc zero) lt = refl
pages_run (suc (suc k)) lt = absurd (omega arith)

untied : ties (wanted memory memory-IsStore one_each two_rows) ≡ 0
unfolding tables
untied = refl

find_all-ArePages_example : ArePages memory memory-IsStore one_each two_rows 2 page_at
find_all-ArePages_example =
    find_all-ArePages memory memory-IsStore one_each two_rows page_at 2 untied pages_run

memory-IsSumming : IsSumming memory rows_of sum_of
memory-IsSumming = record {
  sum_perm = λ xs ys p. ap sum_text (sum_by-perm read_decimal xs ys p);
  sum_none = refl;
  get_raw_one_ok = λ cs columns s s' r e. (sym (ok_pair e).1, sym (ok_pair e).0);
}

abbrev summary : TransactionSummaryDto ℕ
summary = record { total_revenue = 12050; transaction_count = 200 }

summary_runs : get_summary memory one_each two_rows ≡ (ok summary, two_rows)
unfolding tables
summary_runs = refl

find_all_runs : find_all memory one_each two_rows ≡ (ok first_page, two_rows)
unfolding tables
find_all_runs = refl

get_summary-IsSummaryOf_example :
    (is : IsPage memory memory-IsStore one_each two_rows first_page) × IsSummaryOf memory
      memory-IsStore memory-IsSumming is.listing summary
    × (summary.transaction_count ≡ read_decimal (decimal 2))
    × (two_rows ≡ two_rows)
    × (two_rows ≡ two_rows)
get_summary-IsSummaryOf_example =
    get_summary-IsSummaryOf memory memory-IsStore memory-IsSumming one_each two_rows two_rows
      two_rows summary first_page summary_runs find_all_runs

find_all-IsPage_example :
    IsPage memory memory-IsStore one_each two_rows first_page × (two_rows ≡ two_rows)
find_all-IsPage_example =
    find_all-IsPage memory memory-IsStore one_each two_rows two_rows first_page find_all_runs

abbrev sheet : Worksheet ℕ
sheet = record {
  header = columns;
  body =
      map worksheet_row
        (row (codes "1") (codes "20.50") 6 false ∷ row (codes "0") (codes "100.00") 5 false ∷ []);
}

export_runs : export memory one_each two_rows ≡ (ok sheet, two_rows)
unfolding tables export
export_runs = refl

export-IsSheet_example :
    IsSheet memory memory-IsStore one_each two_rows sheet × (two_rows ≡ two_rows)
export-IsSheet_example =
    export-IsSheet memory memory-IsStore one_each two_rows two_rows sheet export_runs
