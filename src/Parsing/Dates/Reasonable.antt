-- ===== src/Parsing/Dates/Reasonable.antt =====
-- Which dates the parser takes for reasonable, and how it reads the two numbers of `a/b/year`.
use birr_track_backend.Base.{
  ℕ, zero, suc, ◌+◌, ◌*◌, ◌≤◌, ◌<◌, ◌≡◌, ◌↔◌, ◌⊎◌, inl, inr, refl, ap, Bool, true, false, some,
  arith, ltb, ◌||◌, if◌then◌else◌, Bool-cases,
}
use birr_track_backend.Js.Integers.{pos, negsuc, pred_ℤ}
use birr_track_backend.Js.Calendar.{leap_days, make_day, ms_per_day, utc}
use birr_track_backend.Js.Calendar.Decode.{
  month_length, utc_full_year_back, utc_month_back, utc_date_back, utc_month_overflows, utc_lem,
  month_length-le, month_length-ge,
}
use birr_track_backend.Parsing.Dates.{is_same_date, is_reasonable_ymd, resolve_day_month}

-- A date of the calendar between 1970 and 2100, with a month index.
pub record IsCalendarDate (y m d : ℕ) : Type 0 where
  pub year_in : (1970 ≤ y) × (y ≤ 2100)
  pub month_in : m ≤ 11
  pub day_in : (1 ≤ d) × (d ≤ month_length (leap_days y) m)

module _ (y m d : ℕ) (in_range : (1970 ≤ y) × (y ≤ 2100)) (hm : m < 12) (h1 : 1 ≤ d)
    (h31 : d ≤ 31) where
  abbrev midnight : ℕ
  midnight = make_day y m d * ms_per_day + (0 * 3600 + 0 * 60 + 0) * 1000

  same_date_eq : is_same_date (utc y m d 0 0 0) y m d ≡ is_same_date (some midnight) y m d
  same_date_eq =
      ap (λ t. is_same_date t y m d)
        (utc_lem y m d 0 0 0 in_range.0 in_range.1 h31 (omega arith) (omega arith) (omega arith))

  same_date_true : d ≤ month_length (leap_days y) m → is_same_date (some midnight) y m d ≡ true
  unfolding is_same_date
  same_date_true h =
      let hr : 0 < ms_per_day = omega arith in
      rw
        (
          utc_full_year_back y m d 0 in_range.0 hm h1 h31 hr,
          utc_month_back y m d 0 in_range.0 hm h1 h31 hr h,
          utc_date_back y m d 0 in_range.0 hm h1 h31 hr h,
        )
        (ground arith)

  same_date_false : month_length (leap_days y) m < d → is_same_date (some midnight) y m d ≡ false
  unfolding is_same_date
  same_date_false h =
      ground (arith, utc_month_overflows y m d 0 in_range.0 hm h1 h31 (omega arith) h)

  same_date_iff : (is_same_date (utc y m d 0 0 0) y m d ≡ true) ↔ (d ≤ month_length (leap_days y) m)
  same_date_iff = rw same_date_eq (ground (arith, same_date_true, same_date_false))

abbrev guard : ℕ → ℕ → ℕ → Bool
guard y m d = ltb y 1970 || (ltb 2100 y || (ltb 11 m || (ltb d 1 || ltb 31 d)))

guard-false :
    (y m d : ℕ) → guard y m d ≡ false → (1970 ≤ y) × (y ≤ 2100) × (m < 12) × (1 ≤ d) × (d ≤ 31)
guard-false y m d h = ground arith

-- The guard of every date parser, which compares a `Date` with the numbers that it was made from,
-- passes exactly the dates of the calendar from 1970 to 2100: a day past the end of its month
-- overflows into the next one and is refused.
pub is_reasonable_ymd_iff :
    (y m d : ℕ) → (is_reasonable_ymd y (pos m) d ≡ true) ↔ IsCalendarDate y m d
unfolding is_reasonable_ymd
is_reasonable_ymd_iff y m d = (to, from)
  where
    to : is_reasonable_ymd y (pos m) d ≡ true → IsCalendarDate y m d
    to e = elim (Bool-cases (guard y m d)) [
      | inl bad ↦ absurd (ground arith)
      | inr fine ↦
          let b = guard-false y m d fine in
          let same : is_same_date (utc y m d 0 0 0) y m d ≡ true = rw fine at e in
          record {
            year_in = (b.0, b.1);
            month_in = omega arith;
            day_in = (b.3, (same_date_iff y m d (b.0, b.1) b.2 b.3 b.4).0 same);
          }
    ]

    from : IsCalendarDate y m d → is_reasonable_ymd y (pos m) d ≡ true
    from c =
        let hm : m < 12 = omega arith in
        let h31 : d ≤ 31 = omega (arith, month_length-le y m hm) in
        let fine : guard y m d ≡ false = ground arith in
        rw fine ((same_date_iff y m d c.year_in hm c.day_in.0 h31).1 c.day_in.1)

negative_month : (y d : ℕ) → is_reasonable_ymd y (negsuc 0) d ≡ false
unfolding is_reasonable_ymd
negative_month y d = refl

-- `a/b/year` read with the month second.
abbrev pub day_first : ℕ → ℕ → ℕ → Bool
day_first a b y = is_reasonable_ymd y (pred_ℤ b) a

-- `a/b/year` read with the month first.
abbrev pub month_first : ℕ → ℕ → ℕ → Bool
month_first a b y = is_reasonable_ymd y (pred_ℤ a) b

month_in_range : (a b y : ℕ) → is_reasonable_ymd y (pred_ℤ a) b ≡ true → (1 ≤ a) × (a ≤ 12)
unfolding is_reasonable_ymd
month_in_range zero b y h = cc
month_in_range (suc a) b y h = let c = (is_reasonable_ymd_iff y a b).0 h in omega arith

short_day_fits : (y m d : ℕ) → m < 12 → d ≤ 12 → d ≤ month_length (leap_days y) m
short_day_fits y m d hm hd = omega (arith, month_length-ge y m hm)

-- A day up to 12 exists in every month of every year.
swap_reasonable :
    (a b y : ℕ)
    → a ≤ 12
    → b ≤ 12
    → is_reasonable_ymd y (pred_ℤ a) b ≡ true
    → is_reasonable_ymd y (pred_ℤ b) a ≡ true
swap_reasonable zero b y ha hb h = absurd (omega (arith, month_in_range 0 b y h))
swap_reasonable (suc a) zero y ha hb h =
    let c = (is_reasonable_ymd_iff y a 0).0 h in absurd (omega arith)
swap_reasonable (suc a) (suc b) y ha hb h =
    let c = (is_reasonable_ymd_iff y a (suc b)).0 h in
    (is_reasonable_ymd_iff y b (suc a)).1 (record {
      year_in = c.year_in;
      month_in = omega arith;
      day_in = (omega arith, short_day_fits y b (suc a) (omega arith) ha);
    })

abbrev pub resolved : ℕ → ℕ → ℕ → Bool
resolved a b y = is_reasonable_ymd y (resolve_day_month a b).0 (resolve_day_month a b).1

-- The reading that is chosen, as a test of the reading.
resolved_by :
    (a b y : ℕ)
    → resolved a b y ≡ (
        if ltb 12 a
        then day_first a b y
        else if ltb 12 b
        then month_first a b y
        else day_first a b y)
unfolding resolve_day_month
resolved_by a b y = elim (Bool-cases (ltb 12 a)) [
  | inl big ↦ rw big
  | inr small ↦ rw small (elim (Bool-cases (ltb 12 b)) [ inl big ↦ rw big | inr also ↦ rw also ])
]

reads_day_first : (a b : ℕ) → (12 < a) ⊎ (b ≤ 12) → resolve_day_month a b ≡ (pred_ℤ b, a)
unfolding resolve_day_month
reads_day_first a b h = elim (Bool-cases (ltb 12 a)) [
  | inl big ↦ rw big
  | inr small ↦ rw small (let low : ltb 12 b ≡ false = ground arith in rw low)
]

-- The numeric date `a/b/year` is taken exactly when one of its two readings is a date of the
-- calendar, and with the day first whenever that reading is one.
pub resolve_day_month_complete :
    (a b y : ℕ)
    → (resolved a b y ≡ (day_first a b y || month_first a b y))
      × (day_first a b y ≡ true → resolve_day_month a b ≡ (pred_ℤ b, a))
resolve_day_month_complete a b y = (
  rw (resolved_by a b y)
      (ground (arith, month_in_range a b y, month_in_range b a y, swap_reasonable a b y)),
  λ h. reads_day_first a b (inr (month_in_range b a y h).1),
)
