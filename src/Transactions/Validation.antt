-- ===== src/Transactions/Validation.antt =====
-- The decorators of src/transactions/dto, the global `ValidationPipe` of src/main.ts, and what it makes
-- of the query of a request. The pipe, class-validator and class-transformer are parameters.
pub mod Documented
pub mod Accepted
pub mod Nulls
use birr_track_backend.Base.{
  ℕ, ◌⊎◌, inl, inr, Bool, true, false, Option, none, some, List, [], ◌∷◌, Text, codes, text_eq,
  if◌then◌else◌, ◌>>=◌,
}
use birr_track_backend.Shared.Exceptions.{
  ValidationError, validation_exception, Exception, validation,
}
use birr_track_backend.Transactions.Dto as Dto
use birr_track_backend.Transactions.Dto.{
  Given, absent, given, UpdateTransactionDto, default_page, default_page_limit,
  GetTransactionsQueryDto,
}

-- The decorators of class-validator that the DTOs carry, with their arguments.
pub data Rule : Type 0 where
  is_string is_not_empty is_date_string is_boolean is_int : Rule
  length : ℕ → ℕ → Rule
  is_number : Option ℕ → Rule
  min max : ℕ → Rule

-- A property of a DTO: `@IsOptional`, `@Type(() => Number)`, and the other decorators.
pub record PropertyRules : Type 0 where
  pub name : Text
  pub is_optional : Bool
  pub to_number : Bool
  pub rules : List Rule

abbrev mandatory : Text → List Rule → PropertyRules
mandatory name rules = record { name = name; is_optional = false; to_number = false; rules = rules }

abbrev optional : Text → List Rule → PropertyRules
optional name rules = record { name = name; is_optional = true; to_number = false; rules = rules }

abbrev pub create_rules : List PropertyRules
create_rules =
    mandatory (codes "telegramUserId") (is_string ∷ is_not_empty ∷ [])
    ∷ mandatory (codes "telegramName") (is_string ∷ is_not_empty ∷ length 1 255 ∷ [])
    ∷ mandatory (codes "amount") (is_number (some 2) ∷ min 0 ∷ [])
    ∷ mandatory (codes "transactionId") (is_string ∷ is_not_empty ∷ length 1 128 ∷ [])
    ∷ mandatory (codes "timestamp") (is_date_string ∷ [])
    ∷ mandatory (codes "bankName") (is_string ∷ is_not_empty ∷ length 1 120 ∷ [])
    ∷ mandatory (codes "confidence") (is_number none ∷ min 0 ∷ max 1 ∷ [])
    ∷ mandatory (codes "isDuplicate") (is_boolean ∷ [])
    ∷ optional (codes "imageUrl") (is_string ∷ [])
    ∷ []

abbrev pub update_rules : List PropertyRules
update_rules =
    optional (codes "amount") (is_number (some 2) ∷ min 0 ∷ [])
    ∷ optional (codes "transactionId") (is_string ∷ length 1 128 ∷ [])
    ∷ optional (codes "timestamp") (is_date_string ∷ [])
    ∷ optional (codes "bankName") (is_string ∷ length 1 120 ∷ [])
    ∷ optional (codes "confidence") (is_number none ∷ min 0 ∷ max 1 ∷ [])
    ∷ optional (codes "imageUrl") (is_string ∷ [])
    ∷ []

abbrev pub numeric : Text → PropertyRules
numeric name = record (optional name (is_int ∷ min 1 ∷ [])) { to_number = true }

unfoldable pub query_rules : List PropertyRules
query_rules =
    numeric (codes "page")
    ∷ numeric (codes "limit")
    ∷ optional (codes "startDate") (is_date_string ∷ [])
    ∷ optional (codes "endDate") (is_date_string ∷ [])
    ∷ optional (codes "telegramUserId") (is_string ∷ [])
    ∷ []

pub record PipeOptions : Type 0 where
  pub whitelist : Bool
  pub transform : Bool
  pub forbid_non_whitelisted : Bool

abbrev pub pipe_options : PipeOptions
pipe_options = record { whitelist = true; transform = true; forbid_non_whitelisted = true }

-- A value of a request: missing, or of the types that the rules tell apart.
pub data Value (Num : Type 0) : Type 0 where
  missing null other : Value Num
  boolean : Bool → Value Num
  number : Num → Value Num
  text : Text → Value Num

-- The properties of a plain object.
abbrev pub Body : Type 0 → Type 0
Body Num = List (Text × Value Num)

unfoldable pub value_of : {Num : Type 0} → Text → Body Num → Value Num
unfolding text_eq
value_of name [] = missing
value_of name ((key, value) ∷ body) =
    let rest = value_of name body in if text_eq key name then value else rest

-- The pipe: the errors of a request, or the object that the handler is given.
pub record Pipe (Num Json : Type 0) : Type 0 where
  pub transform :
      PipeOptions → List PropertyRules → Body Num → List (ValidationError Json) ⊎ Body Num

module _ {Num : Type 0} where
  abbrev given_text : Value Num → Option Text
  given_text (text t) = some t
  given_text _ = none

  -- A property of the class that has an initial value.
  abbrev pub initialised : (Num → Option ℕ) → ℕ → Value Num → Option ℕ
  initialised nat_of initial missing = some initial
  initialised nat_of initial (number n) = nat_of n
  initialised nat_of initial _ = none

  abbrev pub dto_of : ℕ → ℕ → Body Num → GetTransactionsQueryDto
  dto_of page limit body = record {
    page = page;
    limit = limit;
    start_date = given_text (value_of (codes "startDate") body);
    end_date = given_text (value_of (codes "endDate") body);
    telegram_user_id = given_text (value_of (codes "telegramUserId") body);
  }

  -- The query of a request as the class `GetTransactionsQueryDto`, if its numbers are natural ones.
  unfoldable pub query_of : (Num → Option ℕ) → Body Num → Option GetTransactionsQueryDto
  query_of nat_of body = do
    page ← initialised nat_of default_page (value_of (codes "page") body)
    limit ← initialised nat_of default_page_limit (value_of (codes "limit") body)
    some (dto_of page limit body)

module _ {Num : Type 0} where
  abbrev pub given_number : Value Num → Option (Given Num)
  given_number missing = some absent
  given_number null = some Dto.null
  given_number (number n) = some (given n)
  given_number _ = none

  abbrev pub given_string : Value Num → Option (Given Text)
  given_string missing = some absent
  given_string null = some Dto.null
  given_string (text t) = some (given t)
  given_string _ = none

  -- The body of a request as the class `UpdateTransactionDto`, if its values have the types of it.
  unfoldable pub update_of : Body Num → Option (UpdateTransactionDto Num)
  update_of body = do
    amount ← given_number (value_of (codes "amount") body)
    transaction_id ← given_string (value_of (codes "transactionId") body)
    timestamp ← given_string (value_of (codes "timestamp") body)
    bank_name ← given_string (value_of (codes "bankName") body)
    confidence ← given_number (value_of (codes "confidence") body)
    image_url ← given_string (value_of (codes "imageUrl") body)
    some (record {
      amount = amount;
      transaction_id = transaction_id;
      timestamp = timestamp;
      bank_name = bank_name;
      confidence = confidence;
      image_url = image_url;
    })

module _ {Num Json : Type 0} (pipe : Pipe Num Json) where
  -- `exceptionFactory`.
  abbrev pub or_exception : List (ValidationError Json) ⊎ Body Num → Exception Json ⊎ Body Num
  or_exception (inl validation_errors) = inl (validation (validation_exception validation_errors))
  or_exception (inr body) = inr body

  -- What a handler's argument is made of: an exception, or the object.
  unfoldable pub validated : List PropertyRules → Body Num → Exception Json ⊎ Body Num
  validated rules body = or_exception (pipe.transform pipe_options rules body)
