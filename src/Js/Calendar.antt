-- ===== src/Js/Calendar.antt =====
-- ECMAScript's `Date` from 1970 on: `Date.UTC`, the `getUTC` methods and `toISOString`, by the
-- specification's `DayFromYear`, `MonthFromTime` and `DateFromTime`. A time value is a number of
-- milliseconds, and `none` is NaN. The program calls these with a month index from 0 to 11 and a
-- year from 1970 only, as its own guard makes sure.
pub mod Decode
use birr_track_backend.Base.{
  ℕ, zero, suc, ◌+◌, ◌-◌, ◌*◌, ◌/◌, ◌%◌, Bool, true, false, not, Option, none, some, ◌∷◌, ◌++◌,
  Text, codes, ltb, ◌==◌, if◌then◌else◌,
}
use birr_track_backend.Js.Numbers.{pad_2, pad_3, pad_4}

pub is_leap : ℕ → Bool
is_leap y = if y % 4 == 0 then (if y % 100 == 0 then y % 400 == 0 else true) else false

pub leap_days : ℕ → ℕ
unfolding is_leap
leap_days y = if is_leap y then 1 else 0

-- `DayFromYear`: the days from 1970 to the start of a year.
pub day_from_year : ℕ → ℕ
day_from_year y = 365 * (y - 1970) + (y - 1969) / 4 + (y - 1601) / 400 - (y - 1901) / 100

-- The day of the year on which a month starts, with `l` leap days.
pub month_start : ℕ → ℕ → ℕ
month_start l m =
    if m == 0
    then 0
    else if m == 1
    then 31
    else if m == 2
    then 59 + l
    else if m == 3
    then 90 + l
    else if m == 4
    then 120 + l
    else if m == 5
    then 151 + l
    else if m == 6
    then 181 + l
    else if m == 7
    then 212 + l
    else if m == 8
    then 243 + l
    else if m == 9
    then 273 + l
    else if m == 10
    then 304 + l
    else if m == 11
    then 334 + l
    else 365 + l

-- `MonthFromTime`, of a day of the year.
pub month_of : ℕ → ℕ → ℕ
month_of l n =
    if ltb n 31
    then 0
    else if ltb n (59 + l)
    then 1
    else if ltb n (90 + l)
    then 2
    else if ltb n (120 + l)
    then 3
    else if ltb n (151 + l)
    then 4
    else if ltb n (181 + l)
    then 5
    else if ltb n (212 + l)
    then 6
    else if ltb n (243 + l)
    then 7
    else if ltb n (273 + l)
    then 8
    else if ltb n (304 + l)
    then 9
    else if ltb n (334 + l)
    then 10
    else 11

-- `YearFromTime`: the last year that starts at or before a day. Each year has a day at least, so a
-- walk from 1970 needs as many rounds as there are days.
year_from : ℕ → ℕ → ℕ → ℕ
unfolding day_from_year
year_from zero y n = y
year_from (suc fuel) y n =
    let later = year_from fuel (suc y) n in if ltb n (day_from_year (suc y)) then y else later

pub year_of : ℕ → ℕ
unfolding year_from
year_of n = year_from (suc n) 1970 n

-- `MakeDay`.
pub make_day : ℕ → ℕ → ℕ → ℕ
make_day y m d = day_from_year y + month_start (leap_days y) m + (d - 1)

abbrev pub ms_per_day : ℕ
ms_per_day = 86400000

-- `TimeClip`: beyond 8.64e15 the time value is NaN.
time_clip : ℕ → Option ℕ
time_clip t = if ltb 8640000000000000 t then none else some t

-- `Date.UTC(y, m, d, h, min, s)`.
unfoldable pub utc : ℕ → ℕ → ℕ → ℕ → ℕ → ℕ → Option ℕ
unfolding make_day time_clip
utc y m d h mi s = time_clip (make_day y m d * ms_per_day + (h * 3600 + mi * 60 + s) * 1000)

pub day_within_year : ℕ → ℕ
day_within_year n = n - day_from_year (year_of n)

-- `getUTCFullYear`, `getUTCMonth`, `getUTCDate`.
unfoldable pub utc_full_year : ℕ → ℕ
utc_full_year t = year_of (t / ms_per_day)

unfoldable pub utc_month : ℕ → ℕ
utc_month t = let n = t / ms_per_day in month_of (leap_days (year_of n)) (day_within_year n)

unfoldable pub utc_date : ℕ → ℕ
utc_date t =
    let n = t / ms_per_day in
    day_within_year n - month_start (leap_days (year_of n)) (utc_month t) + 1

-- The ISO 8601 text of a date and a time of day, with a month index.
abbrev pub iso_text : ℕ → ℕ → ℕ → ℕ → ℕ → ℕ → ℕ → Text
iso_text y m d h mi s ms =
    pad_4 y
    ++ codes "-"
    ++ pad_2 (m + 1)
    ++ codes "-"
    ++ pad_2 d
    ++ codes "T"
    ++ pad_2 h
    ++ codes ":"
    ++ pad_2 mi
    ++ codes ":"
    ++ pad_2 s
    ++ codes "."
    ++ pad_3 ms
    ++ codes "Z"

-- `toISOString`, of years up to 9999.
unfoldable pub to_iso_string : ℕ → Text
to_iso_string t =
    iso_text (utc_full_year t) (utc_month t) (utc_date t) (t / 3600000 % 24) (t / 60000 % 60)
      (t / 1000 % 60) (t % 1000)

-- All of the calendar, for the `unfolding` lines of tests.
unfoldable pub calendar : Unit {0}
unfolding year_of month_of leap_days month_start day_from_year day_within_year make_day utc
    utc_full_year utc_month utc_date to_iso_string
calendar = tt
