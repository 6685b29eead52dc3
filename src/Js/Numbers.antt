-- ===== src/Js/Numbers.antt =====
-- IEEE doubles, as far as the program computes with them, behind an interface; and decimal digits.
use birr_track_backend.Base.{
  ℕ, zero, suc, ◌+◌, ◌*◌, ◌-◌, ◌/◌, ◌%◌, Bool, [], ◌∷◌, Text, ltb, if◌then◌else◌,
}

-- `Num` stands for the type `number`. The receipts' amounts and confidences are the only fractions.
pub record JsNumber (Num : Type 0) : Type 0 where
  -- `Number(text)`, and the number that a literal denotes.
  pub number_of : Text → Num
  -- `Number.isFinite`.
  pub is_finite : Num → Bool
  -- `n.toFixed(2)`.
  pub to_fixed_2 : Num → Text
  -- `String(n)`.
  pub string_of : Num → Text

-- `Number.parseInt(digits, 10)`, of a text of digits.
unfoldable pub parse_int_from : ℕ → Text → ℕ
parse_int_from acc [] = acc
parse_int_from acc (c ∷ s) = parse_int_from (acc * 10 + (c - b'0')) s

unfoldable pub parse_int : Text → ℕ
unfolding parse_int_from
parse_int s = parse_int_from 0 s

-- The last two, three or four decimal digits of a number, with leading zeros.
abbrev pub digit : ℕ → ℕ
digit n = n % 10 + b'0'

abbrev pub pad_2 : ℕ → Text
pad_2 n = digit (n / 10) ∷ digit n ∷ []

abbrev pub pad_3 : ℕ → Text
pad_3 n = digit (n / 100) ∷ pad_2 n

abbrev pub pad_4 : ℕ → Text
pad_4 n = digit (n / 1000) ∷ pad_3 n

decimal_from : ℕ → ℕ → Text → Text
decimal_from zero n acc = acc
decimal_from (suc fuel) n acc =
    let more = decimal_from fuel (n / 10) (digit n ∷ acc) in
    if ltb n 10 then digit n ∷ acc else more

-- `String(n)` of a natural number. Each round divides by ten, so `suc n` rounds are enough.
unfoldable pub decimal : ℕ → Text
unfolding decimal_from
decimal n = decimal_from (suc n) n []
