-- ===== src/Tests/Validation.antt =====
-- The theorems on the validation, with numbers that are all natural ones.
use birr_track_backend.Base.{
  ℕ, ◌≤◌, ◌≡◌, ◌⊎◌, inl, inr, refl, arith, Bool, true, false, ◌&&◌, some, [], ◌∷◌, codes, text_eq,
  leb, if◌then◌else◌,
}
use birr_track_backend.Js.Numbers.{parse_int, parse_int_from}
use birr_track_backend.Shared.Exceptions.{Exception, response_data}
use birr_track_backend.Transactions.Dto.{GetTransactionsQueryDto}
use birr_track_backend.Transactions.Validation as Validation
use birr_track_backend.Transactions.Validation.{
  Rule, is_int, is_string, is_date_string, PropertyRules, query_rules, Value, missing, null, other,
  boolean, number, text, Body, value_of, Pipe, query_of, validated,
}
use birr_track_backend.Transactions.Validation.Documented.{
  Validator, is_absent, IsValidator, is_valid, is_numeric, is_listed, converted, all_listed,
  all_valid, passes_all, IsPipe,
}
use birr_track_backend.Transactions.Validation.Accepted.{IsPaged, validated_bounds}
use birr_track_backend.Tests.Decimal.{hundredths}
use birr_track_backend.Tests.Database.{day_numbers}

abbrev passes_rule : Rule → Value ℕ → Bool
passes_rule is_int (number n) = true
passes_rule (Validation.min k) (number n) = leb k n
passes_rule is_string (text t) = true
passes_rule is_date_string (text t) = true
passes_rule _ _ = false

abbrev number_value : Value ℕ → Value ℕ
number_value missing = missing
number_value null = null
number_value (number n) = number n
number_value (text t) = number (parse_int t)
number_value _ = number 0

abbrev validator : Validator ℕ
validator = record { passes = passes_rule; number_of = number_value }

number_value_made :
    (value : Value ℕ) → is_absent value ≡ false → (n : ℕ) × (number_value value ≡ number n)
number_value_made missing h = absurd (cc)
number_value_made null h = absurd (cc)
number_value_made (number n) h = (n, refl)
number_value_made (text t) h = (parse_int t, refl)
number_value_made (boolean b) h = (0, refl)
number_value_made other h = (0, refl)

at_least : (k n : ℕ) → leb k n ≡ true → k ≤ n
at_least k n h = ground arith

validator-IsValidator : IsValidator (λ n. some n) validator
validator-IsValidator = record {
  missing_stays = refl;
  number_made = number_value_made;
  int_at_least = λ n k int large. (n, refl, at_least k n large);
}

abbrev pipe : Pipe ℕ (Unit {0})
pipe = record {
  transform = λ options ps body.
      if all_listed ps body && all_valid validator ps (converted validator ps body)
      then inr (converted validator ps body)
      else inl [];
}

pipe-IsPipe : IsPipe validator pipe
pipe-IsPipe = record {
  accepted = λ ps body good. rw good refl;
  refused = λ ps body bad. ([], rw bad refl);
}

-- `?page=3&limit=500`
abbrev query : Body ℕ
query = (codes "page", text (codes "3")) ∷ (codes "limit", text (codes "500")) ∷ []

validated_bounds_example :
    ((e : Exception (Unit {0})) × (validated pipe query_rules query ≡ inl e)
      × ((response_data e).status_code ≡ 422))
    ⊎ ((object : Body ℕ) × (validated pipe query_rules query ≡ inr object)
        × (dto : GetTransactionsQueryDto) × (query_of (λ n. some n) object ≡ some dto)
        × IsPaged ℕ dto)
unfolding value_of text_eq
validated_bounds_example =
    validated_bounds validator (λ n. some n) validator-IsValidator pipe pipe-IsPipe query (λ h. cc)
      (λ h. cc)

-- The query is let through, and `?page=0` is not.
test_accepted : validated pipe query_rules query ≡ inr (converted validator query_rules query)
unfolding validated query_rules all_listed all_valid is_listed is_valid passes_all converted
    is_numeric value_of text_eq parse_int parse_int_from
test_accepted = refl

test_refused :
    all_valid validator query_rules
      (converted validator query_rules ((codes "page", text (codes "0")) ∷ []))
    ≡ false
unfolding query_rules all_valid is_valid passes_all converted is_numeric value_of text_eq parse_int
    parse_int_from
test_refused = refl
