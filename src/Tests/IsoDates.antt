-- ===== src/Tests/IsoDates.antt =====
-- Dates as ECMAScript's time values, and the round trip of a receipt's timestamp.
use birr_track_backend.Base.{
  ℕ, ◌+◌, ◌-◌, ◌*◌, ◌/◌, ◌<◌, ◌≤◌, ◌≡◌, refl, ◌∙◌, arith, Option, none, some, ◌∷◌, Text, codes,
  text_eq, leb, ◌==◌, false, find_first,
}
use birr_track_backend.Js.Numbers.{digit}
use birr_track_backend.Js.Dates.{JsDate}
use birr_track_backend.Js.Calendar.{utc, to_iso_string, iso_text, make_day, ms_per_day}
use birr_track_backend.Js.Calendar.Decode.{utc_lem, month_length-le}
use birr_track_backend.Parsing.Dates.{extract_timestamp_from_text}
use birr_track_backend.Parsing.Dates.Printed.{printed_text}
use birr_track_backend.Parsing.Dates.Letterless.{extract_timestamp_from_text-printed_text}
use birr_track_backend.Parsing.Dates.Reasonable.{IsCalendarDate, is_reasonable_ymd_iff}
use birr_track_backend.Transactions.Dto.{CreateTransactionDto}
use birr_track_backend.Transactions.Fields.{timestamp, read_row_field}
use birr_track_backend.Transactions.Store.{inserted}
use birr_track_backend.Transactions.Service.{text, new_transaction, worksheet_row}
use birr_track_backend.Transactions.Service.Timestamps.{IsIsoDate, timestamp_round_trip}
use birr_track_backend.Tests.Decimal.{hundredths}
use birr_track_backend.Tests.Database.{not_over, same_number}
use birr_track_backend.Tests.Parsing.{parser}

abbrev two : ℕ → ℕ → ℕ
two a b = (a - b'0') * 10 + (b - b'0')

abbrev four : ℕ → ℕ → ℕ → ℕ → ℕ
four a b c d = two a b * 100 + two c d

-- The date and the time of day of an ISO text, by their places.
unfoldable read_iso : Text → Option ℕ
read_iso
      (y1 ∷ y2 ∷ y3 ∷ y4 ∷ _ ∷ m1 ∷ m2 ∷ _ ∷ d1 ∷ d2 ∷ _ ∷ h1 ∷ h2 ∷ _ ∷ n1 ∷ n2 ∷ _ ∷ s1 ∷ s2
        ∷ _) =
    utc (four y1 y2 y3 y4) (two m1 m2 - 1) (two d1 d2) (two h1 h2) (two n1 n2) (two s1 s2)
read_iso _ = none

epoch_text : to_iso_string 0 ≡ codes "1970-01-01T00:00:00.000Z"
unfolding parser
epoch_text = refl

instance abbrev iso_dates : JsDate ℕ
iso_dates = record {
  date_of = read_iso;
  epoch = 0;
  iso_of = to_iso_string;
  epoch_iso = epoch_text;
  le = leb;
  same = λ a b. a == b;
  le_refl = not_over;
  same_refl = same_number;
}

two-digit : (n : ℕ) → n < 100 → two (digit (n / 10)) (digit n) ≡ n
two-digit n h = omega arith

four-digit :
    (n : ℕ) → n < 10000 → four (digit (n / 1000)) (digit (n / 100)) (digit (n / 10)) (digit n) ≡ n
four-digit n h = omega arith

read_iso-iso_text :
    (y m d h mi s : ℕ)
    → IsCalendarDate y m d
    → (h < 24) × (mi < 60) × (s < 60)
    → read_iso (iso_text y m d h mi s 0) ≡ utc y m d h mi s
unfolding read_iso
read_iso-iso_text y m d h mi s c k =
    let hm : m < 12 = omega (arith, c.month_in) in
    let h31 : d ≤ 31 = omega (arith, month_length-le y m hm, c.day_in) in
    let month_is : two (digit ((m + 1) / 10)) (digit (m + 1)) - 1 ≡ m =
      omega (arith, two-digit (m + 1) (omega arith)) in
    rw
      (
        four-digit y (omega (arith, c.year_in)),
        month_is,
        two-digit d (omega arith),
        two-digit h (omega (arith, k)),
        two-digit mi (omega (arith, k)),
        two-digit s (omega (arith, k)),
      )
      refl

iso_dates-IsIsoDate : IsIsoDate (λ t. t)
iso_dates-IsIsoDate = record {
  iso_read = λ y m d h mi s c k.
      let hm : m < 12 = omega (arith, c.month_in) in
      let h31 : d ≤ 31 = omega (arith, month_length-le y m hm, c.day_in) in
      let value = utc_lem y m d h mi s c.year_in.0 c.year_in.1 h31 k.0 k.1 k.2 in
      (
        make_day y m d * ms_per_day + (h * 3600 + mi * 60 + s) * 1000,
        read_iso-iso_text y m d h mi s c k ∙ value,
        value,
      );
  iso_printed = λ t. refl;
}

abbrev printed : Text
printed = codes "2026-04-08T14:30:00.000Z"

abbrev dto : CreateTransactionDto ℕ
dto = record {
  telegram_user_id = codes "7";
  telegram_name = codes "Abel";
  amount = 5000;
  transaction_id = codes "ABC123XY";
  timestamp = printed;
  bank_name = codes "CBE";
  confidence = 92;
  is_duplicate = false;
  image_url = none;
}

abbrev receipt : Text
receipt = codes "ETB 50.00 on 2026-04-08 14:30:00 transaction ref ABC123XY"

receipt_read : extract_timestamp_from_text receipt ≡ some printed
unfolding parser
receipt_read = refl

timestamp_round_trip_example :
    (t : ℕ) × ((new_transaction dto).timestamp ≡ some t)
    × (read_row_field (inserted (new_transaction dto) (codes "0") t 0) timestamp ≡ some printed)
    × (find_first
          (λ c. text_eq c.0 (codes "timestamp"))
          (worksheet_row (inserted (new_transaction dto) (codes "0") t 0))
        ≡ some (codes "timestamp", text printed))
timestamp_round_trip_example =
    timestamp_round_trip (λ t. t) iso_dates-IsIsoDate receipt printed dto (codes "0") 0 receipt_read
      refl

is_calendar_date : IsCalendarDate 2026 1 28
unfolding parser
is_calendar_date = (is_reasonable_ymd_iff 2026 1 28).0 refl

extract_timestamp_from_text-printed_text_example :
    extract_timestamp_from_text (printed_text 2026 1 28 14 30 5)
    ≡ some (iso_text 2026 1 28 14 30 5 0)
extract_timestamp_from_text-printed_text_example =
    extract_timestamp_from_text-printed_text 2026 1 28 14 30 5 is_calendar_date (omega arith)
