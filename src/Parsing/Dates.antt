-- ===== src/Parsing/Dates.antt =====
-- The dates of src/processing/parsing.service.ts: `extractTimestampFromText` and what it calls.
use birr_track_backend.Base.{
  ℕ, zero, suc, ◌-◌, Bool, true, false, ◌||◌, ◌&&◌, Option, none, some, List, [], ◌∷◌, ◌++◌, ◌>>=◌,
  ◌or_else◌, Text, codes, text_eq, ltb, ◌==◌, if◌then◌else◌, ascii_lower, map, keep, take, not,
}
use birr_track_backend.Js.Integers.{ℤ, pos, negsuc, pred_ℤ}
use birr_track_backend.Js.Numbers.{parse_int}
use birr_track_backend.Js.Calendar.{utc, utc_full_year, utc_month, utc_date, to_iso_string}
use birr_track_backend.Regex.{State, match_text, capture}
use birr_track_backend.Parsing.Patterns.{
  day_month_name_year_regex, month_name_day_year_regex, year_month_day_regex, numeric_date_regex,
}
pub mod Reasonable
pub mod Sound
pub mod Printed
pub mod Letterless

abbrev Caps : Type 0
Caps = List (ℕ × Text)

-- `toLowerCase`. Of the units beyond ASCII only U+0130 and the Kelvin sign have ASCII in their lower
-- case; the others are left as they are, which no search for ASCII text can tell.
lower_unit : ℕ → Text
lower_unit c =
    if c == 0x130 then b'i' ∷ 0x307 ∷ [] else if c == 0x212a then b'k' ∷ [] else ascii_lower c ∷ []

unfoldable pub to_lower_case : Text → Text
unfolding lower_unit
to_lower_case [] = []
to_lower_case (c ∷ s) = lower_unit c ++ to_lower_case s

month_keys : List (Text × ℕ)
month_keys =
    (codes "jan", 0)
    ∷ (codes "feb", 1)
    ∷ (codes "mar", 2)
    ∷ (codes "apr", 3)
    ∷ (codes "may", 4)
    ∷ (codes "jun", 5)
    ∷ (codes "jul", 6)
    ∷ (codes "aug", 7)
    ∷ (codes "sep", 8)
    ∷ (codes "oct", 9)
    ∷ (codes "nov", 10)
    ∷ (codes "dec", 11)
    ∷ []

lookup_key : Text → List (Text × ℕ) → Option ℕ
lookup_key key [] = none
lookup_key key ((k, v) ∷ entries) =
    let rest = lookup_key key entries in if text_eq k key then some v else rest

unfoldable pub month_name_to_index : Text → Option ℕ
unfolding to_lower_case month_keys lookup_key
month_name_to_index raw =
    lookup_key (take 3 (keep (λ c. not (c == b'.')) (to_lower_case raw))) month_keys

-- The comparison of a `Date` with the numbers it was made from; NaN equals none of them.
is_same_date : Option ℕ → ℕ → ℕ → ℕ → Bool
is_same_date none y m d = false
is_same_date (some t) y m d = (utc_full_year t == y) && ((utc_month t == m) && (utc_date t == d))

unfoldable pub is_reasonable_ymd : ℕ → ℤ → ℕ → Bool
unfolding is_same_date
is_reasonable_ymd year (negsuc n) day = false
is_reasonable_ymd year (pos month_index) day =
    if ltb year 1970 || (ltb 2100 year || (ltb 11 month_index || (ltb day 1 || ltb 31 day)))
    then false
    else is_same_date (utc year month_index day 0 0 0) year month_index day

unfoldable pub to_iso_utc_midnight : ℕ → ℕ → ℕ → Option Text
to_iso_utc_midnight year month_index day = do
  t ← utc year month_index day 0 0 0
  some (to_iso_string t)

-- A capture that every match of the pattern sets, as a text and as a number.
abbrev field : ℕ → Caps → Text
field i caps = elim (capture i caps) [ some w ↦ w | none ↦ [] ]

abbrev number : ℕ → Caps → ℕ
number i caps = parse_int (field i caps)

-- A reasonable date's index is `pos month_index`; the test is made before the index is used.
abbrev index_of : ℤ → ℕ
index_of (pos n) = n
index_of (negsuc n) = 0

unfoldable pub try_parse_day_month_name_year : Text → Option Text
try_parse_day_month_name_year text = do
  m ← match_text day_month_name_year_regex text
  let day = number 1 m.caps
  let year = number 3 m.caps
  month_index ← month_name_to_index (field 2 m.caps)
  if is_reasonable_ymd year (pos month_index) day
      then to_iso_utc_midnight year month_index day
      else none

unfoldable pub try_parse_month_name_day_year : Text → Option Text
try_parse_month_name_day_year text = do
  m ← match_text month_name_day_year_regex text
  let day = number 2 m.caps
  let year = number 3 m.caps
  month_index ← month_name_to_index (field 1 m.caps)
  if is_reasonable_ymd year (pos month_index) day
      then to_iso_utc_midnight year month_index day
      else none

-- The date at a time of day, if that is in range.
unfoldable pub at_time : ℕ → ℕ → ℕ → ℕ → ℕ → ℕ → Option Text
at_time year month_index day h mi s =
    if ltb 23 h || (ltb 59 mi || ltb 59 s)
    then none
    else do t ← utc year month_index day h mi s; some (to_iso_string t)

abbrev seconds : Option Text → ℕ
seconds none = 0
seconds (some s) = parse_int s

-- The optional time of a numeric date: groups 4, 5 and 6.
unfoldable pub with_time : ℕ → ℕ → ℕ → Option Text → Option Text → Option Text → Option Text
with_time year month_index day (some h) (some mi) s =
    at_time year month_index day (parse_int h) (parse_int mi) (seconds s)
with_time year month_index day _ _ s = to_iso_utc_midnight year month_index day

-- The end of both numeric parsers: the guard, then the date with its time.
unfoldable pub reasonable_date : ℕ → ℤ → ℕ → Caps → Option Text
unfolding with_time
reasonable_date year month_index day caps =
    if is_reasonable_ymd year month_index day
    then with_time year (index_of month_index) day (capture 4 caps) (capture 5 caps)
        (capture 6 caps)
    else none

unfoldable pub try_parse_year_month_day : Text → Option Text
try_parse_year_month_day text = do
  m ← match_text year_month_day_regex text
  reasonable_date (number 1 m.caps) (pred_ℤ (number 2 m.caps)) (number 3 m.caps) m.caps

-- The month index and the day of `a/b`: day first, unless `b` can only be a day.
unfoldable pub resolve_day_month : ℕ → ℕ → ℤ × ℕ
resolve_day_month a b =
    if ltb 12 a then (pred_ℤ b, a) else if ltb 12 b then (pred_ℤ a, b) else (pred_ℤ b, a)

unfoldable pub try_parse_numeric_delimited_date : Text → Option Text
try_parse_numeric_delimited_date text = do
  m ← match_text numeric_date_regex text
  let reading = resolve_day_month (number 1 m.caps) (number 2 m.caps)
  reasonable_date (number 3 m.caps) reading.0 reading.1 m.caps

unfoldable pub extract_timestamp_from_text : Text → Option Text
extract_timestamp_from_text text =
    try_parse_day_month_name_year text
    or_else try_parse_month_name_day_year text
    or_else try_parse_year_month_day text
    or_else try_parse_numeric_delimited_date text
