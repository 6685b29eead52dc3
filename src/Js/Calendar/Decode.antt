-- ===== src/Js/Calendar/Decode.antt =====
-- The date that `Date.UTC` encodes is read back, unless the day lies past the end of its month.
use native.Mathlib.Nat.{add-zero, add-suc}
use birr_track_backend.Base.{
  subst, not, ℕ, zero, suc, ◌+◌, ◌-◌, ◌*◌, ◌/◌, ◌%◌, ◌≤◌, ◌<◌, ◌≡◌, ◌≢◌, refl, ap, inl, inr, Bool,
  true, some, arith, ltb, ◌==◌, ◌&&◌, if◌then◌else◌, Bool-cases, holds_below, holds_below_sound,
}
use birr_track_backend.Js.Calendar.{
  leap_days, day_from_year, month_start, month_of, year_from, year_of, make_day, ms_per_day,
  time_clip, utc, day_within_year, utc_full_year, utc_month, utc_date, iso_text, to_iso_string,
}

leap_days-le : (y : ℕ) → leap_days y ≤ 1
unfolding leap_days
leap_days-le y = ground arith

day_from_year-suc : (y : ℕ) → 1970 ≤ y → day_from_year (suc y) ≡ day_from_year y + 365 + leap_days y
unfolding day_from_year leap_days
day_from_year-suc y h = ground arith

day_from_year-add : (y j : ℕ) → 1970 ≤ y → day_from_year y + j ≤ day_from_year (y + j)
day_from_year-add y zero h = omega (arith, ap day_from_year (add-zero y))
day_from_year-add y (suc j) h = omega (
  arith,
  ap day_from_year (add-suc y j),
  day_from_year-add y j h,
  day_from_year-suc (y + j) (omega arith),
)

day_from_year_mono : (a b : ℕ) → 1970 ≤ a → a ≤ b → day_from_year a + (b - a) ≤ day_from_year b
day_from_year_mono a b h le =
    let same : a + (b - a) ≡ b = omega arith in
    subst (λ c. day_from_year a + (b - a) ≤ day_from_year c) same (day_from_year-add a (b - a) h)

-- The walk over the years stops at the year that holds the day.
year_from_lem :
    (fuel y target k : ℕ)
    → 1970 ≤ y
    → y ≤ target
    → target - y < fuel
    → k < 365 + leap_days target
    → year_from fuel y (day_from_year target + k) ≡ target
unfolding year_from
year_from_lem zero y target k h le f lt = absurd (omega arith)
year_from_lem (suc fuel) y target k h le f lt = elim (Bool-cases (ltb y target)) [
  | inl earlier ↦
      ground (arith, day_from_year_mono (suc y) target, year_from_lem fuel (suc y) target k)
  | inr there ↦ let same : y ≡ target = ground arith in ground (arith, day_from_year-suc target)
]

pub year_of_lem : (y k : ℕ) → 1970 ≤ y → k < 365 + leap_days y → year_of (day_from_year y + k) ≡ y
unfolding year_of
year_of_lem y k h lt =
    year_from_lem (suc (day_from_year y + k)) 1970 y k (omega arith) h
      (omega (arith, day_from_year_mono 1970 y (omega arith) h)) lt

-- The length of a month, with `l` leap days.
abbrev pub month_length : ℕ → ℕ → ℕ
month_length l m = month_start l (suc m) - month_start l m

-- Reading back day `d` of month `m`, for every month and day: exactly the days of the month return.
abbrev reads_back : ℕ → ℕ → ℕ → Bool
reads_back l m d =
    let n = month_start l m + d in
    let found = month_of l n in
    if ltb d (month_length l m)
    then ltb n (365 + l) && ((found == m) && (n - month_start l found == d))
    else ltb n (365 + l) && not (found == m)

abbrev month_reads_back : ℕ → ℕ → Bool
month_reads_back l m = holds_below (reads_back l m) 31

abbrev year_reads_back : ℕ → Bool
year_reads_back l = holds_below (month_reads_back l) 12

reads_back_table : holds_below year_reads_back 2 ≡ true
unfolding holds_below month_start month_of
reads_back_table = refl

reads_back_all : (l m d : ℕ) → l < 2 → m < 12 → d < 31 → reads_back l m d ≡ true
reads_back_all l m d hl hm hd =
    let of_year = holds_below_sound year_reads_back 2 l hl reads_back_table in
    holds_below_sound (reads_back l m) 31 d hd
      (holds_below_sound (month_reads_back l) 12 m hm of_year)

module _ (y m d r : ℕ) (hy : 1970 ≤ y) (hm : m < 12) (h1 : 1 ≤ d) (h31 : d ≤ 31)
    (hr : r < ms_per_day) where
  abbrev day_number : ℕ
  day_number = make_day y m d

  abbrev instant : ℕ
  instant = day_number * ms_per_day + r

  instant_day : instant / ms_per_day ≡ day_number
  instant_day = omega arith

  table_row : reads_back (leap_days y) m (d - 1) ≡ true
  table_row =
      reads_back_all (leap_days y) m (d - 1) (omega (arith, leap_days-le y)) hm (omega arith)

  day_fits : month_start (leap_days y) m + (d - 1) < 365 + leap_days y
  day_fits = ground (arith, table_row)

  year_back : year_of day_number ≡ y
  unfolding make_day
  year_back =
      rw
        (let e : day_from_year y + month_start (leap_days y) m + (d - 1)
              ≡ day_from_year y + (month_start (leap_days y) m + (d - 1)) =
            omega arith in
          e)
        (year_of_lem y (month_start (leap_days y) m + (d - 1)) hy day_fits)

  within_back : day_within_year day_number ≡ month_start (leap_days y) m + (d - 1)
  unfolding day_within_year
  within_back = rw year_back (unfold make_day in omega arith)

  pub utc_full_year_back : utc_full_year instant ≡ y
  unfolding utc_full_year
  utc_full_year_back = rw instant_day year_back

  utc_month_eq : utc_month instant ≡ month_of (leap_days y) (month_start (leap_days y) m + (d - 1))
  unfolding utc_month
  utc_month_eq = rw (instant_day, year_back, within_back)

  utc_date_eq :
      utc_date instant
      ≡ month_start (leap_days y) m + (d - 1) - month_start (leap_days y) (utc_month instant) + 1
  unfolding utc_date
  utc_date_eq = rw (instant_day, year_back, within_back)

  pub utc_month_back : d ≤ month_length (leap_days y) m → utc_month instant ≡ m
  utc_month_back h = rw utc_month_eq (ground (arith, table_row))

  pub utc_date_back : d ≤ month_length (leap_days y) m → utc_date instant ≡ d
  utc_date_back h = rw (utc_date_eq, utc_month_eq) (ground (arith, table_row))

  pub utc_month_overflows : month_length (leap_days y) m < d → utc_month instant ≢ m
  utc_month_overflows h = rw utc_month_eq (ground (arith, table_row))

day_from_year-le : (y : ℕ) → 1970 ≤ y → y ≤ 2100 → day_from_year y ≤ 47847
unfolding day_from_year
day_from_year-le y lo hi = omega arith

pub month_length-le : (y m : ℕ) → m < 12 → month_length (leap_days y) m ≤ 31
unfolding month_start
month_length-le y m h = ground (arith, leap_days-le y)

month_start-le : (l m : ℕ) → l ≤ 1 → month_start l m ≤ 366
unfolding month_start
month_start-le l m h = ground arith

-- The years that the parser takes lie within the range of time values.
pub utc_lem :
    (y m d h mi s : ℕ)
    → 1970 ≤ y
    → y ≤ 2100
    → d ≤ 31
    → h < 24
    → mi < 60
    → s < 60
    → utc y m d h mi s ≡ some (make_day y m d * ms_per_day + (h * 3600 + mi * 60 + s) * 1000)
unfolding utc time_clip make_day
utc_lem y m d h mi s lo hi hd hh hm hs =
    ground (arith, day_from_year-le y lo hi, month_start-le (leap_days y) m (leap_days-le y))

pub clock_back :
    (n h mi s : ℕ)
    → h < 24
    → mi < 60
    → s < 60
    → let t : ℕ = n * ms_per_day + (h * 3600 + mi * 60 + s) * 1000 in
      (t / 3600000 % 24 ≡ h) × (t / 60000 % 60 ≡ mi) × (t / 1000 % 60 ≡ s) × (t % 1000 ≡ 0)
clock_back n h mi s hh hm hs = omega arith

-- `toISOString` prints the date and the time that `Date.UTC` was given.
pub to_iso_string-utc :
    (y m d h mi s : ℕ)
    → 1970 ≤ y
    → m < 12
    → 1 ≤ d
    → d ≤ month_length (leap_days y) m
    → h < 24
    → mi < 60
    → s < 60
    → to_iso_string (make_day y m d * ms_per_day + (h * 3600 + mi * 60 + s) * 1000)
      ≡ iso_text y m d h mi s 0
unfolding to_iso_string
to_iso_string-utc y m d h mi s hy hm h1 hd hh hmi hs =
    let r : ℕ = (h * 3600 + mi * 60 + s) * 1000 in
    let hr : r < ms_per_day = omega arith in
    let h31 : d ≤ 31 = omega (arith, month_length-le y m hm) in
    let clock = clock_back (make_day y m d) h mi s hh hmi hs in
    rw (
      utc_full_year_back y m d r hy hm h1 h31 hr,
      utc_month_back y m d r hy hm h1 h31 hr hd,
      utc_date_back y m d r hy hm h1 h31 hr hd,
      clock.0,
      clock.1,
      clock.2,
      clock.3,
    )

pub month_length-ge : (y m : ℕ) → m < 12 → 28 ≤ month_length (leap_days y) m
unfolding month_start
month_length-ge y m h = ground (arith, leap_days-le y)
