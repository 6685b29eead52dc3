-- ===== src/Tests/Decimal.antt =====
-- Numbers for the tests: a non-negative decimal as its hundredths.
use birr_track_backend.Base.{
  ℕ, zero, suc, ◌+◌, ◌-◌, ◌*◌, ◌/◌, ◌%◌, true, [], ◌∷◌, Text, ltb, ◌==◌, if◌then◌else◌,
}
use birr_track_backend.Js.Numbers.{JsNumber, digit, parse_int, parse_int_from}

before_point : Text → Text
before_point [] = []
before_point (c ∷ s) = let rest = before_point s in if c == b'.' then [] else c ∷ rest

after_point : Text → Text
after_point [] = []
after_point (c ∷ s) = let rest = after_point s in if c == b'.' then s else rest

hundredths_of : Text → ℕ
hundredths_of [] = 0
hundredths_of (c ∷ []) = (c - b'0') * 10
hundredths_of (c ∷ d ∷ _) = (c - b'0') * 10 + (d - b'0')

pub read_decimal : Text → ℕ
read_decimal s = parse_int (before_point s) * 100 + hundredths_of (after_point s)

print_from : ℕ → ℕ → Text → Text
print_from zero n acc = acc
print_from (suc fuel) n acc =
    let more = print_from fuel (n / 10) (digit n ∷ acc) in if ltb n 10 then digit n ∷ acc else more

pub print_fixed : ℕ → Text
print_fixed n = print_from 30 (n / 100) (b'.' ∷ digit (n / 10) ∷ digit n ∷ [])

-- With no trailing zeros in the fraction.
pub print_short : ℕ → Text
print_short n =
    if n % 100 == 0
    then print_from 30 (n / 100) []
    else if n % 10 == 0
    then print_from 30 (n / 100) (b'.' ∷ digit (n / 10) ∷ [])
    else print_fixed n

instance abbrev pub hundredths : JsNumber ℕ
hundredths = record {
  number_of = read_decimal;
  is_finite = λ _. true;
  to_fixed_2 = print_fixed;
  string_of = print_short;
}

unfoldable pub decimals : Unit {0}
unfolding before_point after_point hundredths_of read_decimal print_from print_fixed print_short
    parse_int parse_int_from
decimals = tt
