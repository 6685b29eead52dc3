-- ===== src/Transactions/Bigint.antt =====
-- PostgreSQL's reading of a text as a `bigint`, the type of the column `telegramUserId`.
use birr_track_backend.Base.{
  ℕ, zero, suc, Bool, true, false, ◌&&◌, Option, none, some, [], ◌∷◌, Text, is_digit, ltb, ◌==◌,
  trim, if◌then◌else◌,
}
use birr_track_backend.Js.Integers.{ℤ, pos, negsuc}
use birr_track_backend.Js.Numbers.{parse_int}

abbrev are_digits : Text → Bool
are_digits [] = true
are_digits (c ∷ s) = is_digit c && are_digits s

abbrev digits_of : Text → Option ℕ
digits_of [] = none
digits_of (c ∷ s) = if are_digits (c ∷ s) then some (parse_int (c ∷ s)) else none

-- From -2^63 to 2^63 - 1.
abbrev positive : Option ℕ → Option ℤ
positive none = none
positive (some n) = if ltb n 9223372036854775808 then some (pos n) else none

abbrev negative : Option ℕ → Option ℤ
negative none = none
negative (some zero) = some (pos 0)
negative (some (suc n)) = if ltb n 9223372036854775808 then some (negsuc n) else none

abbrev signed : Text → Option ℤ
signed [] = none
signed (c ∷ s) =
    if c == b'-'
    then negative (digits_of s)
    else if c == b'+'
    then positive (digits_of s)
    else positive (digits_of (c ∷ s))

-- Blanks around it, a sign, and decimal digits.
unfoldable pub bigint_of : Text → Option ℤ
bigint_of text = signed (trim text)

unfoldable pub same_bigint : Option ℤ → Option ℤ → Bool
same_bigint (some (pos m)) (some (pos n)) = m == n
same_bigint (some (negsuc m)) (some (negsuc n)) = m == n
same_bigint _ _ = false
