-- ===== src/Parsing/Dates/Letterless.antt =====
-- That a text without letters has no date with a month's name, and what the parser makes of a date
-- that is printed with numbers only.
use birr_track_backend.Base.{
  ℕ, ◌+◌, ◌/◌, ◌<◌, ◌≡◌, refl, inl, inr, arith, Bool, true, false, ◌&&◌, some, none, Text, All, leb,
  ◌==◌, ascii_lower,
}
use birr_track_backend.Js.Numbers.{digit}
use birr_track_backend.Js.Calendar.{iso_text}
use birr_track_backend.Regex.Missing.{Needs, match_text-none}
use birr_track_backend.Parsing.Patterns.{
  month_name_pattern, day_month_name_year_regex, month_name_day_year_regex,
}
use birr_track_backend.Parsing.Dates.{
  try_parse_day_month_name_year, try_parse_month_name_day_year, extract_timestamp_from_text,
}
use birr_track_backend.Parsing.Dates.Reasonable.{IsCalendarDate}
use birr_track_backend.Parsing.Dates.Printed.{printed_text, try_parse_year_month_day-printed_text}

abbrev is_letter : ℕ → Bool
is_letter c = leb b'a' (ascii_lower c) && leb (ascii_lower c) b'z'

abbrev IsLetterless : Text → Type 0
IsLetterless s = All (λ c. is_letter c ≡ false) s

-- The first unit of a month's name.
first_letter :
    (d c : ℕ) → is_letter d ≡ true → (ascii_lower c == ascii_lower d) ≡ true → is_letter c ≡ true
first_letter d c h e = ground arith

month_name-Needs : Needs is_letter month_name_pattern
unfolding month_name_pattern
month_name-Needs =
    let go = first_letter in
    (
      inl (inl (λ c. go b'J' c refl)),
      (
        inl (inl (λ c. go b'F' c refl)),
        (
          inl (inl (λ c. go b'M' c refl)),
          (
            inl (inl (λ c. go b'A' c refl)),
            (
              inl (λ c. go b'M' c refl),
              (
                inl (inl (λ c. go b'J' c refl)),
                (
                  inl (inl (λ c. go b'J' c refl)),
                  (
                    inl (inl (λ c. go b'A' c refl)),
                    (
                      inl (inl (λ c. go b'S' c refl)),
                      (
                        inl (inl (λ c. go b'O' c refl)),
                        (inl (inl (λ c. go b'N' c refl)), inl (inl (λ c. go b'D' c refl))),
                      ),
                    ),
                  ),
                ),
              ),
            ),
          ),
        ),
      ),
    )

try_parse_day_month_name_year-none :
    (text : Text) → IsLetterless text → try_parse_day_month_name_year text ≡ none
unfolding try_parse_day_month_name_year day_month_name_year_regex month_name_pattern
try_parse_day_month_name_year-none text lacks =
    rw
      (match_text-none is_letter day_month_name_year_regex text (omega arith) (search (tt))
        (inr (inr (inr (inl month_name-Needs)))) lacks)
      refl

try_parse_month_name_day_year-none :
    (text : Text) → IsLetterless text → try_parse_month_name_day_year text ≡ none
unfolding try_parse_month_name_day_year month_name_day_year_regex month_name_pattern
try_parse_month_name_day_year-none text lacks =
    rw
      (match_text-none is_letter month_name_day_year_regex text (omega arith) (search (tt))
        (inr (inl month_name-Needs)) lacks)
      refl

digit-letterless : (n : ℕ) → is_letter (digit n) ≡ false
digit-letterless n = ground arith

module _ (y m d h mi s : ℕ) where
  printed_text-IsLetterless : IsLetterless (printed_text y m d h mi s)
  printed_text-IsLetterless =
      let go = digit-letterless in
      (
        go (y / 1000),
        (
          go (y / 100),
          (
            go (y / 10),
            (
              go y,
              (
                refl,
                (
                  go ((m + 1) / 10),
                  (
                    go (m + 1),
                    (
                      refl,
                      (
                        go (d / 10),
                        (
                          go d,
                          (
                            refl,
                            (
                              go (h / 10),
                              (
                                go h,
                                (refl, (go (mi / 10), (go mi, (refl, (go (s / 10), (go s, tt)))))),
                              ),
                            ),
                          ),
                        ),
                      ),
                    ),
                  ),
                ),
              ),
            ),
          ),
        ),
      )

  -- A date of the calendar from 1970 to 2100 and a time of day, printed as `YYYY-MM-DD hh:mm:ss`, are
  -- read by the search for a receipt's timestamp as their ISO text: neither parser of dates with a
  -- month's name, which come first, takes the text.
  pub extract_timestamp_from_text-printed_text :
      (c : IsCalendarDate y m d)
      → (h < 24) × (mi < 60) × (s < 60)
      → extract_timestamp_from_text (printed_text y m d h mi s) ≡ some (iso_text y m d h mi s 0)
  unfolding extract_timestamp_from_text
  extract_timestamp_from_text-printed_text c k =
      rw
        (
          try_parse_day_month_name_year-none (printed_text y m d h mi s) printed_text-IsLetterless,
          try_parse_month_name_day_year-none (printed_text y m d h mi s) printed_text-IsLetterless,
          try_parse_year_month_day-printed_text y m d h mi s c k,
        )
        refl
