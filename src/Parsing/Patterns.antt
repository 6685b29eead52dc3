-- ===== src/Parsing/Patterns.antt =====
-- The regular expressions of src/processing/parsing.service.ts. With the flag `i` and no `u` only
-- ASCII letters match in either case.
use Prim.Native.String.{String}
use birr_track_backend.Base.{
  ℕ, Bool, ◌||◌, ◌&&◌, none, some, List, [], ◌∷◌, Text, codes, leb, ◌==◌, is_digit, ascii_lower,
  is_space,
}
use birr_track_backend.Regex.{Regex, eps, one, seq, alt, rep, group, boundary}

abbrev pub opt : Regex → Regex
opt r = rep 0 (some 1) r

abbrev pub star : Regex → Regex
star r = rep 0 none r

-- `\d{lo,hi}`.
abbrev pub digits : ℕ → ℕ → Regex
digits lo hi = rep lo (some hi) (one is_digit)

abbrev pub exactly : ℕ → Regex
exactly c = one (λ x. x == c)

abbrev pub seqs : List Regex → Regex
seqs [] = eps
seqs (r ∷ []) = r
seqs (r ∷ s ∷ rs) = seq r (seqs (s ∷ rs))

abbrev pub alts : Regex → List Regex → Regex
alts r [] = r
alts r (s ∷ rs) = alt r (alts s rs)

-- A literal under the flag `i`.
abbrev pub literal : Text → Regex
literal [] = eps
literal (c ∷ s) = seq (one (λ x. ascii_lower x == ascii_lower c)) (literal s)

-- `(?:\.[0-9]{1,2})`.
abbrev pub fraction : Regex
fraction = seq (exactly b'.') (digits 1 2)

-- `[0-9]{1,3}(?:,[0-9]{3})*(?:\.[0-9]{1,2})|[0-9]+(?:\.[0-9]{1,2})`.
abbrev pub amount_body : Regex
amount_body =
    alt (seqs (digits 1 3 ∷ star (seq (exactly b',') (digits 3 3)) ∷ fraction ∷ []))
      (seq (rep 1 none (one is_digit)) fraction)

unfoldable pub amount_regex : Regex
amount_regex = seqs (
    opt (alts (literal (codes "ETB")) (literal (codes "Birr") ∷ literal (codes "Br") ∷ []))
    ∷ star (one is_space)
    ∷ group 1 amount_body
    ∷ [])

-- `[A-Za-z0-9-]`.
abbrev pub is_id_unit : ℕ → Bool
is_id_unit c =
    (leb b'A' c && leb c b'Z') || ((leb b'a' c && leb c b'z') || (is_digit c || (c == b'-')))

abbrev pub id_body : Regex
id_body = rep 6 none (one is_id_unit)

-- `[\s:#-]`.
abbrev is_id_separator : ℕ → Bool
is_id_separator c = is_space c || ((c == b':') || ((c == b'#') || (c == b'-')))

unfoldable pub transaction_id_regex : Regex
transaction_id_regex = seqs (
    alts (seq (literal (codes "tx")) (opt (alt (literal (codes "n")) (literal (codes "id"))))) (
      seq (literal (codes "transaction")) (opt (seq (star (one is_space)) (literal (codes "id"))))
      ∷ literal (codes "reference")
      ∷ literal (codes "ref")
      ∷ [])
    ∷ star (one is_id_separator)
    ∷ group 1 id_body
    ∷ [])

-- A month's short name with the rest of its long name optional.
abbrev month : String → String → Regex
month short more = seq (literal (codes short)) (opt (literal (codes more)))

-- `MONTH_NAME_PATTERN`.
unfoldable pub month_name_pattern : Regex
month_name_pattern = alts (month "Jan" "uary") (
    month "Feb" "ruary"
    ∷ month "Mar" "ch"
    ∷ month "Apr" "il"
    ∷ literal (codes "May")
    ∷ month "Jun" "e"
    ∷ month "Jul" "y"
    ∷ month "Aug" "ust"
    ∷ seq (literal (codes "Sep")) (opt (seq (literal (codes "t")) (opt (literal (codes "ember")))))
    ∷ month "Oct" "ober"
    ∷ month "Nov" "ember"
    ∷ month "Dec" "ember"
    ∷ [])

-- `[-/.]`.
abbrev is_delimiter : ℕ → Bool
is_delimiter c = (c == b'-') || ((c == b'/') || (c == b'.'))

abbrev delimiter : Regex
delimiter = one is_delimiter

unfoldable pub day_month_name_year_regex : Regex
unfolding month_name_pattern
day_month_name_year_regex = seqs (
    boundary
    ∷ group 1 (digits 1 2)
    ∷ delimiter
    ∷ group 2 month_name_pattern
    ∷ delimiter
    ∷ group 3 (digits 4 4)
    ∷ boundary
    ∷ [])

-- `[,/\s]`.
abbrev is_year_separator : ℕ → Bool
is_year_separator c = (c == b',') || ((c == b'/') || is_space c)

unfoldable pub month_name_day_year_regex : Regex
unfolding month_name_pattern
month_name_day_year_regex = seqs (
    boundary
    ∷ group 1 month_name_pattern
    ∷ opt delimiter
    ∷ rep 1 none (one is_space)
    ∷ group 2 (digits 1 2)
    ∷ opt (
        alts (literal (codes "st"))
          (literal (codes "nd") ∷ literal (codes "rd") ∷ literal (codes "th") ∷ []))
    ∷ rep 1 none (one is_year_separator)
    ∷ group 3 (digits 4 4)
    ∷ boundary
    ∷ [])

-- `(\d{1,2}):(\d{2})(?::(\d{2}))?`.
abbrev pub time_body : Regex
time_body = seqs (
    group 4 (digits 1 2)
    ∷ exactly b':'
    ∷ group 5 (digits 2 2)
    ∷ opt (seq (exactly b':') (group 6 (digits 2 2)))
    ∷ [])

-- `[T\s]`, with no flag `i`.
abbrev pub is_time_separator : ℕ → Bool
is_time_separator c = (c == b'T') || is_space c

unfoldable pub year_month_day_regex : Regex
year_month_day_regex = seqs (
    boundary
    ∷ group 1 (digits 4 4)
    ∷ delimiter
    ∷ group 2 (digits 1 2)
    ∷ delimiter
    ∷ group 3 (digits 1 2)
    ∷ opt (seq (rep 1 none (one is_time_separator)) time_body)
    ∷ boundary
    ∷ [])

unfoldable pub numeric_date_regex : Regex
numeric_date_regex = seqs (
    boundary
    ∷ group 1 (digits 1 2)
    ∷ delimiter
    ∷ group 2 (digits 1 2)
    ∷ delimiter
    ∷ group 3 (digits 4 4)
    ∷ opt (seq (rep 1 none (one is_space)) time_body)
    ∷ boundary
    ∷ [])
