-- ===== src/Parsing/Dates/Sound.antt =====
-- What a timestamp read from a receipt is: the ISO text of a date of the calendar.
use birr_track_backend.Base.{
  ℕ, ◌≤◌, ◌<◌, ◌≡◌, inl, inr, ◌∙◌, sym, Option, none, some, arith, ltb, ◌||◌, List, if◌then◌else◌,
  Bool-cases, Option-cases, ◌>>=◌, ◌or_else◌, Text,
}
use birr_track_backend.Js.Integers.{ℤ, pos, negsuc, pred_ℤ}
use birr_track_backend.Js.Calendar.{utc, to_iso_string, iso_text}
use birr_track_backend.Js.Calendar.Decode.{utc_lem, month_length-le, to_iso_string-utc}
use birr_track_backend.Regex.{match_text, capture}
use birr_track_backend.Parsing.Patterns.{
  day_month_name_year_regex, month_name_day_year_regex, year_month_day_regex, numeric_date_regex,
}
use birr_track_backend.Parsing.Dates.{
  field, number, month_name_to_index, resolve_day_month, is_reasonable_ymd, to_iso_utc_midnight,
  at_time, with_time, reasonable_date, try_parse_day_month_name_year, try_parse_month_name_day_year,
  try_parse_year_month_day, try_parse_numeric_delimited_date, extract_timestamp_from_text,
}
use birr_track_backend.Parsing.Dates.Reasonable.{IsCalendarDate, is_reasonable_ymd_iff}

-- `ts` is the ISO text of a second between 1970 and 2100.
pub record IsTimestamp (ts : Text) : Type 0 where
  pub year : ℕ
  pub month_index : ℕ
  pub day : ℕ
  pub hour : ℕ
  pub minute : ℕ
  pub second : ℕ
  pub date : IsCalendarDate year month_index day
  pub clock : (hour < 24) × (minute < 60) × (second < 60)
  pub text : ts ≡ iso_text year month_index day hour minute second 0

module _ (y m d : ℕ) (c : IsCalendarDate y m d) where
  -- `Date.UTC` followed by `toISOString`.
  printed :
      (h mi s : ℕ) (ts : Text)
      → (h < 24) × (mi < 60) × (s < 60)
      → (utc y m d h mi s >>= λ t. some (to_iso_string t)) ≡ some ts
      → IsTimestamp ts
  printed h mi s ts k e =
      let hm : m < 12 = omega arith in
      let h31 : d ≤ 31 = omega (arith, month_length-le y m hm) in
      let time = utc_lem y m d h mi s c.year_in.0 c.year_in.1 h31 k.0 k.1 k.2 in
      let iso = to_iso_string-utc y m d h mi s c.year_in.0 hm c.day_in.0 c.day_in.1 k.0 k.1 k.2 in
      record {
        year = y;
        month_index = m;
        day = d;
        hour = h;
        minute = mi;
        second = s;
        date = c;
        clock = k;
        text = sym (cc (rw time at e)) ∙ iso;
      }

  midnight-IsTimestamp : (ts : Text) → to_iso_utc_midnight y m d ≡ some ts → IsTimestamp ts
  unfolding to_iso_utc_midnight
  midnight-IsTimestamp ts e = printed 0 0 0 ts (omega arith) e

  at_time-IsTimestamp : (h mi s : ℕ) (ts : Text) → at_time y m d h mi s ≡ some ts → IsTimestamp ts
  unfolding at_time
  at_time-IsTimestamp h mi s ts e = elim (Bool-cases (ltb 23 h || (ltb 59 mi || ltb 59 s))) [
    | inl bad ↦ absurd (cc (rw bad at e))
    | inr fine ↦ printed h mi s ts (ground arith) (rw fine at e)
  ]

  with_time-IsTimestamp :
      (h mi s : Option Text) (ts : Text) → with_time y m d h mi s ≡ some ts → IsTimestamp ts
  unfolding with_time
  with_time-IsTimestamp (some h) (some mi) s ts e = at_time-IsTimestamp _ _ _ ts e
  with_time-IsTimestamp _ _ s ts e = midnight-IsTimestamp ts e

guarded-IsTimestamp :
    (y m d : ℕ) (ts : Text)
    → (if is_reasonable_ymd y (pos m) d then to_iso_utc_midnight y m d else none) ≡ some ts
    → IsTimestamp ts
guarded-IsTimestamp y m d ts e = elim (Bool-cases (is_reasonable_ymd y (pos m) d)) [
  | inl fine ↦ midnight-IsTimestamp y m d ((is_reasonable_ymd_iff y m d).0 fine) ts (rw fine at e)
  | inr bad ↦ absurd (cc (rw bad at e))
]

reasonable_date-IsTimestamp :
    (y : ℕ) (m : ℤ) (d : ℕ) (caps : List (ℕ × Text)) (ts : Text)
    → reasonable_date y m d caps ≡ some ts
    → IsTimestamp ts
unfolding reasonable_date
reasonable_date-IsTimestamp y (negsuc m) d caps ts e = absurd (unfold is_reasonable_ymd in cc e)
reasonable_date-IsTimestamp y (pos m) d caps ts e =
    elim (Bool-cases (is_reasonable_ymd y (pos m) d)) [
      | inl fine ↦
          with_time-IsTimestamp y m d ((is_reasonable_ymd_iff y m d).0 fine) (capture 4 caps)
            (capture 5 caps) (capture 6 caps) ts (rw fine at e)
      | inr bad ↦ absurd (cc (rw bad at e))
    ]

named_date-IsTimestamp :
    (y d : ℕ) (index : Option ℕ) (ts : Text)
    → (index >>= λ m. if is_reasonable_ymd y (pos m) d then to_iso_utc_midnight y m d else none)
      ≡ some ts
    → IsTimestamp ts
named_date-IsTimestamp y d none ts e = absurd (cc)
named_date-IsTimestamp y d (some m) ts e = guarded-IsTimestamp y m d ts e

day_month_name-IsTimestamp :
    (text ts : Text) → try_parse_day_month_name_year text ≡ some ts → IsTimestamp ts
unfolding try_parse_day_month_name_year
day_month_name-IsTimestamp text ts e =
    elim (Option-cases (match_text day_month_name_year_regex text)) [
      | inl missed ↦ absurd (cc (rw missed at e))
      | inr (m, found) ↦
          named_date-IsTimestamp (number 3 m.caps) (number 1 m.caps)
            (month_name_to_index (field 2 m.caps)) ts (rw found at e)
    ]

month_name_day-IsTimestamp :
    (text ts : Text) → try_parse_month_name_day_year text ≡ some ts → IsTimestamp ts
unfolding try_parse_month_name_day_year
month_name_day-IsTimestamp text ts e =
    elim (Option-cases (match_text month_name_day_year_regex text)) [
      | inl missed ↦ absurd (cc (rw missed at e))
      | inr (m, found) ↦
          named_date-IsTimestamp (number 3 m.caps) (number 2 m.caps)
            (month_name_to_index (field 1 m.caps)) ts (rw found at e)
    ]

year_month_day-IsTimestamp :
    (text ts : Text) → try_parse_year_month_day text ≡ some ts → IsTimestamp ts
unfolding try_parse_year_month_day
year_month_day-IsTimestamp text ts e = elim (Option-cases (match_text year_month_day_regex text)) [
  | inl missed ↦ absurd (cc (rw missed at e))
  | inr (m, found) ↦
      reasonable_date-IsTimestamp (number 1 m.caps) (pred_ℤ (number 2 m.caps)) (number 3 m.caps)
        m.caps ts (rw found at e)
]

numeric_date-IsTimestamp :
    (text ts : Text) → try_parse_numeric_delimited_date text ≡ some ts → IsTimestamp ts
unfolding try_parse_numeric_delimited_date
numeric_date-IsTimestamp text ts e = elim (Option-cases (match_text numeric_date_regex text)) [
  | inl missed ↦ absurd (cc (rw missed at e))
  | inr (m, found) ↦
      let reading = resolve_day_month (number 1 m.caps) (number 2 m.caps) in
      reasonable_date-IsTimestamp (number 3 m.caps) reading.0 reading.1 m.caps ts (rw found at e)
]

or_else-eq-some {ℓ κ} :
    {A : Type ℓ} (P : A → Type κ) (a b : Option A) (v : A)
    → ((w : A) → a ≡ some w → P w)
    → ((w : A) → b ≡ some w → P w)
    → (a or_else b) ≡ some v
    → P v
or_else-eq-some P (some a) b v f g e = f v e
or_else-eq-some P none b v f g e = g v e

-- Whatever the text, a timestamp that is read from it is the ISO text of a calendar date from 1970
-- to 2100 with a time of day: no invalid date leaves the parser.
pub extract_timestamp_from_text-IsTimestamp :
    (text ts : Text) → extract_timestamp_from_text text ≡ some ts → IsTimestamp ts
unfolding extract_timestamp_from_text
extract_timestamp_from_text-IsTimestamp text ts e =
    or_else-eq-some IsTimestamp _ _ ts (day_month_name-IsTimestamp text)
      (λ w f.
        or_else-eq-some IsTimestamp _ _ w (month_name_day-IsTimestamp text)
          (λ v g.
            or_else-eq-some IsTimestamp _ _ v (year_month_day-IsTimestamp text)
              (numeric_date-IsTimestamp text) g)
          f)
      e
