-- ===== src/Parsing/Dates/Printed.antt =====
-- That the parser reads back the dates that are printed with the year first.
use birr_track_backend.Base.{
  ℕ, suc, ◌+◌, ◌/◌, ◌<◌, ◌≤◌, ◌++◌, codes, ltb, ◌≡◌, refl, sym, ap, ◌∙◌, List, true, false, some,
  none, [], ◌∷◌, Text, is_digit, is_space, arith, ◌||◌,
}
use birr_track_backend.Regex.{State, boundary, seq, rep, one, match_text, run}
use birr_track_backend.Regex.Steps.{
  one_goes, two_go, one_or_two_go, four_go, separator_goes, optional_goes, boundary_before,
  boundary_after, seq_goes, match_text_goes,
}
use birr_track_backend.Js.Numbers.{digit, pad_2, pad_4, parse_int, parse_int_from}
use birr_track_backend.Js.Integers.{pos, pred_ℤ}
use birr_track_backend.Js.Calendar.{iso_text}
use birr_track_backend.Js.Calendar.Decode.{utc_lem, month_length-le, to_iso_string-utc}
use birr_track_backend.Regex.{capture}
use birr_track_backend.Parsing.Dates.{at_time, with_time, reasonable_date, try_parse_year_month_day}
use birr_track_backend.Parsing.Dates.Reasonable.{IsCalendarDate, is_reasonable_ymd_iff}
use birr_track_backend.Parsing.Patterns.{opt, is_time_separator, time_body, year_month_day_regex}

abbrev IsDigit : ℕ → Type 0
IsDigit c = is_digit c ≡ true

digit_no_separator : (c : ℕ) → IsDigit c → is_time_separator c ≡ false
unfolding is_space
digit_no_separator c h = ground arith

module _ (a b c e f g i j k l n o p q : ℕ) (ha : IsDigit a) (hb : IsDigit b) (hc : IsDigit c)
    (he : IsDigit e) (hf : IsDigit f) (hg : IsDigit g) (hi : IsDigit i) (hj : IsDigit j)
    (hk : IsDigit k) (hl : IsDigit l) (hn : IsDigit n) (ho : IsDigit o) (hp : IsDigit p)
    (hq : IsDigit q) where
  -- `YYYY-MM-DD hh:mm:ss`.
  abbrev digits_text : Text
  digits_text =
      a ∷ b ∷ c ∷ e ∷ b'-' ∷ f ∷ g ∷ b'-' ∷ i ∷ j ∷ b' ' ∷ k ∷ l ∷ b':' ∷ n ∷ o ∷ b':' ∷ p ∷ q ∷ []

  abbrev matched : State
  matched = record {
    prev = some q;
    rest = [];
    caps =
        (6, p ∷ q ∷ [])
        ∷ (5, n ∷ o ∷ [])
        ∷ (4, k ∷ l ∷ [])
        ∷ (3, i ∷ j ∷ [])
        ∷ (2, f ∷ g ∷ [])
        ∷ (1, a ∷ b ∷ c ∷ e ∷ [])
        ∷ [];
  }

  -- From the blank on.
  time_goes :
      (caps : List (ℕ × Text)) (t : State)
      → t ≡ record {
        prev = some q;
        rest = [];
        caps = (6, p ∷ q ∷ []) ∷ (5, n ∷ o ∷ []) ∷ (4, k ∷ l ∷ []) ∷ caps;
      }
      → run (seq (opt (seq (rep 1 none (one is_time_separator)) time_body)) boundary) some (record {
        prev = some j;
        rest = b' ' ∷ k ∷ l ∷ b':' ∷ n ∷ o ∷ b':' ∷ p ∷ q ∷ [];
        caps = caps;
      })
        ≡ some t
  unfolding is_space
  time_goes caps t is_t = seq_goes _ _ _ _ t (
      optional_goes _ _ _ t (
        seq_goes _ _ _ _ t (
          separator_goes _ _ _ _ _ t b' ' k refl (digit_no_separator k hk) (
            seq_goes _ _ _ _ t (
              one_or_two_go _ _ _ _ _ t 4 k l hk hl (
                seq_goes _ _ _ _ t (
                  one_goes _ _ _ _ _ t b':' refl (
                    seq_goes _ _ _ _ t (
                      two_go _ _ _ _ _ t 5 n o hn ho (
                        optional_goes _ _ _ t (
                          seq_goes _ _ _ _ t (
                            one_goes _ _ _ _ _ t b':' refl (
                              two_go _ _ _ _ _ t 6 p q hp hq
                                (boundary_after some none _ q hq ∙ ap some (sym is_t)))))))))))))))

  match_year_first : match_text year_month_day_regex digits_text ≡ some matched
  unfolding year_month_day_regex
  match_year_first =
      let t = matched in
      match_text_goes _ _ _ t (
        seq_goes _ _ _ _ t (
          boundary_before _ none [] a _ ha
          ∙ seq_goes _ _ _ _ t (
              four_go _ _ _ _ _ t 1 a b c e ha hb hc he (
                seq_goes _ _ _ _ t (
                  one_goes _ _ _ _ _ t b'-' refl (
                    seq_goes _ _ _ _ t (
                      one_or_two_go _ _ _ _ _ t 2 f g hf hg (
                        seq_goes _ _ _ _ t (
                          one_goes _ _ _ _ _ t b'-' refl (
                            seq_goes _ _ _ _ t
                              (one_or_two_go _ _ _ _ _ t 3 i j hi hj (time_goes _ t refl))))))))))))

digit-IsDigit : (n : ℕ) → IsDigit (digit n)
digit-IsDigit n = ground arith

read_two : (n : ℕ) → n < 100 → parse_int (pad_2 n) ≡ n
unfolding parse_int parse_int_from
read_two n h = omega arith

read_four : (n : ℕ) → n < 10000 → parse_int (pad_4 n) ≡ n
unfolding parse_int parse_int_from
read_four n h = omega arith

pred_next : (m : ℕ) → pred_ℤ (m + 1) ≡ pos m
pred_next m = let next : m + 1 ≡ suc m = omega arith in rw next refl

-- `YYYY-MM-DD hh:mm:ss`, with a month index.
abbrev pub printed_text : ℕ → ℕ → ℕ → ℕ → ℕ → ℕ → Text
printed_text y m d h mi s =
    pad_4 y
    ++ codes "-"
    ++ pad_2 (m + 1)
    ++ codes "-"
    ++ pad_2 d
    ++ codes " "
    ++ pad_2 h
    ++ codes ":"
    ++ pad_2 mi
    ++ codes ":"
    ++ pad_2 s

module _ (y m d h mi s : ℕ) (c : IsCalendarDate y m d) (k : (h < 24) × (mi < 60) × (s < 60)) where
  at_time-iso : at_time y m d h mi s ≡ some (iso_text y m d h mi s 0)
  unfolding at_time
  at_time-iso =
      let hm : m < 12 = omega (arith, c.month_in) in
      let h31 : d ≤ 31 = omega (arith, month_length-le y m hm, c.day_in) in
      let in_range : (ltb 23 h || (ltb 59 mi || ltb 59 s)) ≡ false = ground (arith, k) in
      rw
        (
          in_range,
          utc_lem y m d h mi s c.year_in.0 c.year_in.1 h31 k.0 k.1 k.2,
          to_iso_string-utc y m d h mi s c.year_in.0 hm c.day_in.0 c.day_in.1 k.0 k.1 k.2,
        )
        refl

  found :
      match_text year_month_day_regex (printed_text y m d h mi s)
      ≡ some (
          matched
            (digit (y / 1000))
            (digit (y / 100))
            (digit (y / 10))
            (digit y)
            (digit ((m + 1) / 10))
            (digit (m + 1))
            (digit (d / 10))
            (digit d)
            (digit (h / 10))
            (digit h)
            (digit (mi / 10))
            (digit mi)
            (digit (s / 10))
            (digit s)
            (digit-IsDigit (y / 1000))
            (digit-IsDigit (y / 100))
            (digit-IsDigit (y / 10))
            (digit-IsDigit y)
            (digit-IsDigit ((m + 1) / 10))
            (digit-IsDigit (m + 1))
            (digit-IsDigit (d / 10))
            (digit-IsDigit d)
            (digit-IsDigit (h / 10))
            (digit-IsDigit h)
            (digit-IsDigit (mi / 10))
            (digit-IsDigit mi)
            (digit-IsDigit (s / 10))
            (digit-IsDigit s))
  found =
      match_year_first (digit (y / 1000)) (digit (y / 100)) (digit (y / 10)) (digit y)
        (digit ((m + 1) / 10)) (digit (m + 1)) (digit (d / 10)) (digit d) (digit (h / 10)) (digit h)
        (digit (mi / 10)) (digit mi) (digit (s / 10)) (digit s) (digit-IsDigit (y / 1000))
        (digit-IsDigit (y / 100)) (digit-IsDigit (y / 10)) (digit-IsDigit y)
        (digit-IsDigit ((m + 1) / 10)) (digit-IsDigit (m + 1)) (digit-IsDigit (d / 10))
        (digit-IsDigit d) (digit-IsDigit (h / 10)) (digit-IsDigit h) (digit-IsDigit (mi / 10))
        (digit-IsDigit mi) (digit-IsDigit (s / 10)) (digit-IsDigit s)

  -- A date of the calendar from 1970 to 2100 and a time of day, printed as `YYYY-MM-DD hh:mm:ss`, are
  -- read back by the parser of such dates as their ISO text.
  pub try_parse_year_month_day-printed_text :
      try_parse_year_month_day (printed_text y m d h mi s) ≡ some (iso_text y m d h mi s 0)
  unfolding try_parse_year_month_day reasonable_date with_time capture
  try_parse_year_month_day-printed_text =
      let hm : m < 12 = omega (arith, c.month_in) in
      let d31 : d ≤ 31 = omega (arith, month_length-le y m hm, c.day_in) in
      rw
        (
          found,
          read_four y (omega (arith, c.year_in)),
          read_two (m + 1) (omega arith),
          pred_next m,
          read_two d (omega arith),
          (is_reasonable_ymd_iff y m d).1 c,
          read_two h (omega (arith, k)),
          read_two mi (omega (arith, k)),
          read_two s (omega (arith, k)),
        )
        at_time-iso
