-- ===== src/Transactions/Query/Filter.antt =====
-- Which rows the filters of a request let through.
use birr_track_backend.Base.{◌≡◌, true, Option, none, some, [], ◌∷◌, Text}
use birr_track_backend.Js.Integers.{ℤ}
use birr_track_backend.Transactions.Bigint.{bigint_of}
use birr_track_backend.Js.Dates.{JsDate}
use birr_track_backend.Transactions.Entities.{Transaction}
use birr_track_backend.Transactions.Dto.{GetTransactionsQueryDto}

-- Two texts of one 64-bit integer.
abbrev pub IsSameInteger : Text → Text → Type 0
IsSameInteger a b = (n : ℤ) × (bigint_of a ≡ some n) × (bigint_of b ≡ some n)

-- `P` holds of the text of a filter that is given; an empty one is as good as none.
abbrev pub IfGiven : Option Text → (Text → Type 0) → Type 0
IfGiven none P = Unit
IfGiven (some []) P = Unit
IfGiven (some (c ∷ s)) P = P (c ∷ s)

module _ {Time : Type 0} ⦃dates : JsDate Time⦄ where
  -- `P` holds of the date that a text stands for, if it stands for one.
  abbrev pub OfDate : (Time → Type 0) → Text → Type 0
  OfDate P text = (t : Time) × (dates.date_of text ≡ some t) × P t

module _ {Num Time : Type 0} ⦃dates : JsDate Time⦄ where
  -- A row that a request asks for: in its range of dates, both ends included, and of its user.
  pub record IsWanted (dto : GetTransactionsQueryDto) (row : Transaction Num Time) : Type 0 where
    pub from_start : IfGiven dto.start_date (OfDate (λ t. dates.le t row.timestamp ≡ true))
    pub to_end : IfGiven dto.end_date (OfDate (λ t. dates.le row.timestamp t ≡ true))
    pub of_the_user : IfGiven dto.telegram_user_id (IsSameInteger row.telegram_user_id)
