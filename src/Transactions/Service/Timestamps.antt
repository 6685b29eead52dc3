-- ===== src/Transactions/Service/Timestamps.antt =====
-- That the timestamp of a receipt comes back from the table as the text that the parser made of it.
use birr_track_backend.Base.{
  ℕ, ◌<◌, ◌≤◌, ◌≡◌, ap, sym, ◌∙◌, arith, some, Text, codes, text_eq, find_first,
}
use birr_track_backend.Js.Numbers.{JsNumber}
use birr_track_backend.Js.Dates.{JsDate}
use birr_track_backend.Js.Calendar.{utc, to_iso_string, iso_text}
use birr_track_backend.Js.Calendar.Decode.{utc_lem, month_length-le, to_iso_string-utc}
use birr_track_backend.Parsing.Dates.{extract_timestamp_from_text}
use birr_track_backend.Parsing.Dates.Reasonable.{IsCalendarDate}
use birr_track_backend.Parsing.Dates.Sound.{IsTimestamp, extract_timestamp_from_text-IsTimestamp}
use birr_track_backend.Transactions.Dto.{CreateTransactionDto}
use birr_track_backend.Transactions.Fields.{timestamp, read_row_field}
use birr_track_backend.Transactions.Store.{inserted}
use birr_track_backend.Transactions.Service.{text, new_transaction, worksheet_row}

-- What ECMAScript says of dates: an ISO text of a second of the calendar is read as `Date.UTC` of its
-- numbers, and `toISOString` prints the time value.
pub record IsIsoDate {Time : Type 0} ⦃dates : JsDate Time⦄ (time_value : Time → ℕ) : Type 0 where
  pub iso_read :
      (y m d h mi s : ℕ)
      → IsCalendarDate y m d
      → (h < 24) × (mi < 60) × (s < 60)
      → (t : Time) × (dates.date_of (iso_text y m d h mi s 0) ≡ some t)
        × (utc y m d h mi s ≡ some (time_value t))
  pub iso_printed : (t : Time) → dates.iso_of t ≡ to_iso_string (time_value t)

some-injective : {A : Type 0} {a b : A} → some a ≡ some b → a ≡ b
some-injective e = cc

module _ {Time : Type 0} ⦃dates : JsDate Time⦄ (time_value : Time → ℕ)
    (iso : IsIsoDate time_value) where
  -- Reading a timestamp of the parser and printing it gives the same text.
  printed_back :
      (ts : Text)
      → IsTimestamp ts
      → (t : Time) × (dates.date_of ts ≡ some t) × (dates.iso_of t ≡ ts)
  printed_back ts stamp =
      let y = stamp.year in
      let m = stamp.month_index in
      let d = stamp.day in
      let c = stamp.date in
      let k = stamp.clock in
      let (t, is_read, value) = iso.iso_read y m d stamp.hour stamp.minute stamp.second c k in
      let hm : m < 12 = omega (arith, c.month_in) in
      let h31 : d ≤ 31 = omega (arith, month_length-le y m hm, c.day_in) in
      let time =
        utc_lem y m d stamp.hour stamp.minute stamp.second c.year_in.0 c.year_in.1 h31 k.0 k.1
          k.2 in
      let same = some-injective (sym value ∙ time) in
      let back =
        to_iso_string-utc y m d stamp.hour stamp.minute stamp.second c.year_in.0 hm c.day_in.0
          c.day_in.1 k.0 k.1 k.2 in
      (
        t,
        ap dates.date_of stamp.text ∙ is_read,
        iso.iso_printed t ∙ (ap to_iso_string same ∙ (back ∙ sym stamp.text)),
      )

module _ {Num Time : Type 0} ⦃js : JsNumber Num⦄ ⦃dates : JsDate Time⦄ (time_value : Time → ℕ)
    (iso : IsIsoDate time_value) where
  -- A timestamp that the parser reads from a receipt is a valid date once the receipt is stored, and
  -- the row's timestamp, compared with the request of an edit or written to the sheet of an export, is
  -- the text that the parser made.
  pub timestamp_round_trip :
      (receipt ts : Text) (dto : CreateTransactionDto Num) (id : Text) (created_at : Time)
      → extract_timestamp_from_text receipt ≡ some ts
      → dto.timestamp ≡ ts
      → (t : Time) × ((new_transaction dto).timestamp ≡ some t)
        × (read_row_field (inserted (new_transaction dto) id t created_at) timestamp ≡ some ts)
        × (find_first
              (λ c. text_eq c.0 (codes "timestamp"))
              (worksheet_row (inserted (new_transaction dto) id t created_at))
            ≡ some (codes "timestamp", text ts))
  unfolding new_transaction read_row_field inserted worksheet_row text_eq
  timestamp_round_trip receipt ts dto id created_at is_read stored =
      let (t, is_date, back) =
        printed_back time_value iso ts
          (extract_timestamp_from_text-IsTimestamp receipt ts is_read) in
      (
        t,
        ap dates.date_of stored ∙ is_date,
        ap some back,
        ap (λ z. some (codes "timestamp", text z)) back,
      )
