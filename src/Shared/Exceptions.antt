-- ===== src/Shared/Exceptions.antt =====
-- src/shared/filters, with src/shared/exceptions/validation.exception.ts.
use birr_track_backend.Base.{
  ℕ, ◌≤◌, ◌≡◌, ◌≢◌, inl, inr, refl, arith, Option, none, some, List, Text, codes, map, text_eq,
  text_eq_iff, Bool-cases, if◌then◌else◌,
}

-- A field that class-validator refuses, with its constraints as JSON of any type.
pub record ValidationError (Json : Type 0) : Type 0 where
  pub property : Text
  pub constraints : Json

-- `{ field, errors }`.
pub record FieldErrors (Json : Type 0) : Type 0 where
  pub field : Text
  pub errors : Json

-- `ValidationException`.
pub record ValidationException (Json : Type 0) : Type 0 where
  pub error : Text
  pub message : List (FieldErrors Json)
  pub status_code : ℕ

pub record HttpException (Json : Type 0) : Type 0 where
  pub status : ℕ
  pub name : Text
  pub message : Text
  pub response : Json

-- What is thrown, by the classes that the filter tells apart. The database client's errors are those
-- of Prisma's; other errors have a name and a message, and other values neither.
pub data Exception (Json : Type 0) : Type 0 where
  validation : ValidationException Json → Exception Json
  http : HttpException Json → Exception Json
  database : Text → Text → Exception Json
  error : Text → Text → Exception Json
  value : Json → Exception Json

pub data Details (Json : Type 0) : Type 0 where
  fields : List (FieldErrors Json) → Details Json
  json : Json → Details Json
  text : Text → Details Json

-- `FilterResponseInterface`.
pub record FilterResponse (Json : Type 0) : Type 0 where
  pub status_code : ℕ
  pub error_type : Text
  pub message : Text
  pub details : Option (Details Json)

-- What is logged: an error's name and message, or the thrown value.
pub data LogEntry (Json : Type 0) : Type 0 where
  named : Text → Text → LogEntry Json
  thrown : Exception Json → LogEntry Json

module _ {Json : Type 0} where
  abbrev field_errors : ValidationError Json → FieldErrors Json
  field_errors e = record { field = e.property; errors = e.constraints }

  -- The constructor of `ValidationException`.
  unfoldable pub validation_exception : List (ValidationError Json) → ValidationException Json
  validation_exception errors = record {
    error = codes "Validation Error";
    message = map field_errors errors;
    status_code = 422;
  }

  abbrev pub server_error : FilterResponse Json
  server_error = record {
    status_code = 500;
    error_type = codes "Server Error";
    message = codes "Internal server error";
    details = none;
  }

  -- `responseData`. The message of a `ValidationException` is never a string.
  unfoldable pub response_data : Exception Json → FilterResponse Json
  response_data (validation e) = record {
    status_code = e.status_code;
    error_type = e.error;
    message = e.error;
    details = some (fields e.message);
  }
  response_data (http e) = record {
    status_code = e.status;
    error_type = codes "HTTP Error";
    message = e.message;
    details = some (json e.response);
  }
  response_data (database name message) = record {
    status_code = 500;
    error_type = codes "Database Error";
    message = message;
    details = some (text message);
  }
  response_data _ = server_error

  unfoldable pub logged : Exception Json → LogEntry Json
  logged (http e) = named e.name e.message
  logged (database name message) = named name message
  logged (error name message) = named name message
  logged e = thrown e

  -- `catch`: the log entry, and the response if one is sent.
  unfoldable pub catch_exception :
      Text → Exception Json → LogEntry Json × Option (FilterResponse Json)
  unfolding response_data logged
  catch_exception context_type e =
      (logged e, if text_eq context_type (codes "http") then some (response_data e) else none)

  -- An exception whose text is meant for the client.
  abbrev pub IsExplained : Exception Json → Type 0
  IsExplained (error name message) = ⊥
  IsExplained (value v) = ⊥
  IsExplained _ = Unit

  -- The status that the exception asks for, if it asks for one, is one of an error.
  abbrev pub IsErrorStatus : Exception Json → Type 0
  IsErrorStatus (validation e) = 400 ≤ e.status_code
  IsErrorStatus (http e) = 400 ≤ e.status
  IsErrorStatus _ = Unit

  pub record IsAnswer (e : Exception Json) (r : FilterResponse Json) : Type 0 where
    pub hidden : ¬ IsExplained e → r ≡ server_error
    pub is_error : IsErrorStatus e → 400 ≤ r.status_code

  response_data-IsAnswer : (e : Exception Json) → IsAnswer e (response_data e)
  unfolding response_data
  response_data-IsAnswer (validation e) = record { hidden = λ h. absurd (h tt); is_error = λ h. h }
  response_data-IsAnswer (http e) = record { hidden = λ h. absurd (h tt); is_error = λ h. h }
  response_data-IsAnswer (database name message) = record {
    hidden = λ h. absurd (h tt);
    is_error = λ h. omega arith;
  }
  response_data-IsAnswer (error name message) = record {
    hidden = λ h. refl;
    is_error = λ h. omega arith;
  }
  response_data-IsAnswer (value v) = record { hidden = λ h. refl; is_error = λ h. omega arith }

  -- Every exception of an HTTP context is answered, with a status of an error if the exception asks
  -- for none or for such a one, and nothing of an error of another kind than a validation error, an
  -- HTTP exception or one of the database client reaches the client. In other contexts nothing is
  -- answered.
  pub catch_exception_answers :
      (context_type : Text) (e : Exception Json)
      → (context_type ≡ codes "http"
          → (r : FilterResponse Json) × ((catch_exception context_type e).1 ≡ some r)
            × IsAnswer e r)
        × (context_type ≢ codes "http" → (catch_exception context_type e).1 ≡ none)
  unfolding catch_exception
  catch_exception_answers context_type e = elim (Bool-cases (text_eq context_type (codes "http"))) [
    | inl same ↦ rw same (
      λ h. (response_data e, refl, response_data-IsAnswer e),
      λ h. absurd (h ((text_eq_iff context_type (codes "http")).0 same)),
    )
    | inr different ↦
        rw different (λ h. absurd (cc ((text_eq_iff context_type (codes "http")).1 h)), λ h. refl)
  ]
