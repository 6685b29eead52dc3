-- ===== src/Tests/Parsing.antt =====
-- The receipts of src/processing/parsing.service.spec.ts, and the parsing theorems at such texts.
use birr_track_backend.Base.{
  ℕ, ◌≡◌, ◌↔◌, refl, true, false, ◌||◌, none, some, Text, codes, All, text_eq, starts_with,
  includes, is_space,
}
use birr_track_backend.Base.Results.{Result, ok, err}
use birr_track_backend.Js.Calendar.{calendar}
use birr_track_backend.Tests.Decimal.{hundredths, decimals}
use birr_track_backend.Regex.{match_text, capture}
use birr_track_backend.Parsing.Patterns.{
  amount_regex, transaction_id_regex, day_month_name_year_regex, month_name_day_year_regex,
  year_month_day_regex, numeric_date_regex,
}
use birr_track_backend.Parsing.Dates.{
  to_lower_case, month_name_to_index, is_reasonable_ymd, to_iso_utc_midnight,
  try_parse_day_month_name_year, try_parse_month_name_day_year, at_time, with_time, reasonable_date,
  try_parse_year_month_day, resolve_day_month, try_parse_numeric_delimited_date,
  extract_timestamp_from_text,
}
use birr_track_backend.Parsing.Fields.{
  Extracted, extract_bank_name, remove_commas, extract_transaction_id, extract_amount,
  parse_with_regex,
}
use birr_track_backend.Parsing.Service.{ParsedTransaction, has_all_fields, parse}
use birr_track_backend.Js.Integers.{pos, pred_ℤ}
use birr_track_backend.Parsing.Dates.Reasonable.{
  IsCalendarDate, is_reasonable_ymd_iff, resolved, day_first, month_first,
  resolve_day_month_complete,
}
use birr_track_backend.Parsing.Dates.Sound.{IsTimestamp, extract_timestamp_from_text-IsTimestamp}
use birr_track_backend.Parsing.Fields.Sound.{
  IsTransactionId, extract_transaction_id-IsTransactionId, IsAmount, extract_amount-IsAmount,
}
use birr_track_backend.Parsing.Fields.Banks.{
  IsNamed, known, IsFirstNamed, extract_bank_name-IsFirstNamed,
}
use birr_track_backend.Parsing.Service.Merging.{
  IsComplete, regex_result, Outcome, KeepsFields, parse-Outcome,
}

-- Everything that a run of the parser computes with.
unfoldable pub parser : Unit {0}
unfolding calendar decimals text_eq starts_with includes is_space match_text capture amount_regex
    transaction_id_regex day_month_name_year_regex month_name_day_year_regex year_month_day_regex
    numeric_date_regex to_lower_case month_name_to_index is_reasonable_ymd to_iso_utc_midnight
    try_parse_day_month_name_year try_parse_month_name_day_year at_time with_time reasonable_date
    try_parse_year_month_day resolve_day_month try_parse_numeric_delimited_date
    extract_timestamp_from_text extract_bank_name remove_commas extract_transaction_id
    extract_amount parse_with_regex has_all_fields parse
parser = tt

abbrev no_llm : Text → Result (Extracted ℕ)
no_llm _ = err (codes "called")

abbrev pub receipt : Text
receipt =
    codes "ETB 100.00 on 04-Apr-2026 with transactionID:FT26094X0XVY Commercial Bank of Ethiopia"

test_receipt :
    parse no_llm receipt
    ≡ ok (record {
      bank_name = some (codes "Commercial Bank of Ethiopia");
      amount = some 10000;
      transaction_id = some (codes "FT26094X0XVY");
      timestamp = some (codes "2026-04-04T00:00:00.000Z");
      confidence = 92;
      used_llm = false;
    })
unfolding parser
test_receipt = refl

test_with_time :
    extract_timestamp_from_text (codes "ETB 50.00 on 2026-04-08 14:30:00 transaction ref ABC123XY")
    ≡ some (codes "2026-04-08T14:30:00.000Z")
unfolding parser
test_with_time = refl

test_day_first :
    extract_timestamp_from_text (codes "ETB 10.00 15/03/2026 ref TX999999999")
    ≡ some (codes "2026-03-15T00:00:00.000Z")
unfolding parser
test_day_first = refl

test_month_first :
    extract_timestamp_from_text (codes "ETB 10.00 03/15/2026 ref TX999999999")
    ≡ some (codes "2026-03-15T00:00:00.000Z")
unfolding parser
test_month_first = refl

test_month_name :
    extract_timestamp_from_text (codes "ETB 1.00 on April 8, 2026 transaction id REF123456789")
    ≡ some (codes "2026-04-08T00:00:00.000Z")
unfolding parser
test_month_name = refl

-- The label is taken for the id.
test_reference_label :
    extract_transaction_id (codes "Transaction reference: FT26094X0XVY") ≡ some (codes "reference")
unfolding parser
test_reference_label = refl

-- A date with points is taken for the amount.
test_date_as_amount : extract_amount {Num = ℕ} (codes "12.05.2026 ETB 100.00") ≡ some 1205
unfolding parser
test_date_as_amount = refl

is_reasonable_ymd_iff_example :
    (is_reasonable_ymd 2026 (pos 1) 29 ≡ true) ↔ IsCalendarDate 2026 1 29
is_reasonable_ymd_iff_example = is_reasonable_ymd_iff 2026 1 29

resolve_day_month_complete_example :
    (resolved 3 15 2026 ≡ (day_first 3 15 2026 || month_first 3 15 2026))
    × (day_first 3 15 2026 ≡ true → resolve_day_month 3 15 ≡ (pred_ℤ 15, 3))
resolve_day_month_complete_example = resolve_day_month_complete 3 15 2026

extract_timestamp_from_text-IsTimestamp_example : IsTimestamp (codes "2026-03-15T00:00:00.000Z")
extract_timestamp_from_text-IsTimestamp_example =
    extract_timestamp_from_text-IsTimestamp (codes "ETB 10.00 03/15/2026 ref TX999999999")
      (codes "2026-03-15T00:00:00.000Z") test_month_first

receipt_id : extract_transaction_id receipt ≡ some (codes "FT26094X0XVY")
unfolding parser
receipt_id = refl

extract_transaction_id-IsTransactionId_example : IsTransactionId receipt (codes "FT26094X0XVY")
extract_transaction_id-IsTransactionId_example =
    extract_transaction_id-IsTransactionId receipt (codes "FT26094X0XVY") receipt_id

receipt_amount : extract_amount {Num = ℕ} receipt ≡ some 10000
unfolding parser
receipt_amount = refl

extract_amount-IsAmount_example :
    (w : Text) × IsAmount receipt w
    × (hundredths.number_of (remove_commas w) ≡ 10000)
    × (hundredths.is_finite 10000 ≡ true)
extract_amount-IsAmount_example = extract_amount-IsAmount receipt 10000 receipt_amount

extract_bank_name-IsFirstNamed_example :
    ((bank : Text) → extract_bank_name receipt ≡ some bank → IsFirstNamed receipt bank)
    × (extract_bank_name receipt ≡ none → All (λ b. ¬ IsNamed receipt b) known)
extract_bank_name-IsFirstNamed_example = extract_bank_name-IsFirstNamed receipt

-- A receipt without a bank, and an LLM that knows it.
abbrev no_bank : Text
no_bank = codes "ETB 100.00 on 04-Apr-2026 with transactionID:FT26094X0XVY"

abbrev knows_bank : Text → Result (Extracted ℕ)
knows_bank _ = ok (record {
  bank_name = some (codes "CBE");
  amount = some 1;
  transaction_id = none;
  timestamp = none;
})

abbrev completed_receipt : ParsedTransaction ℕ
completed_receipt = record {
  bank_name = some (codes "CBE");
  amount = some 10000;
  transaction_id = some (codes "FT26094X0XVY");
  timestamp = some (codes "2026-04-04T00:00:00.000Z");
  confidence = 78;
  used_llm = true;
}

completes : parse knows_bank no_bank ≡ ok completed_receipt
unfolding parser
completes = refl

parse-Outcome_example :
    (IsComplete {Num = ℕ} (regex_result no_bank)
      → parse knows_bank no_bank ≡ ok (regex_result no_bank))
    × ((p : ParsedTransaction ℕ)
        → parse knows_bank no_bank ≡ ok p
        → Outcome knows_bank no_bank p × KeepsFields (parse_with_regex no_bank) p)
parse-Outcome_example = parse-Outcome knows_bank no_bank
