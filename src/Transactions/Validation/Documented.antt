-- ===== src/Transactions/Validation/Documented.antt =====
-- What Nest, class-validator and class-transformer document of the pipe with the options of
-- src/main.ts.
use birr_track_backend.Base.{
  ℕ, ◌≤◌, ◌≡◌, inl, inr, Bool, true, false, ◌&&◌, ◌||◌, Option, some, List, [], ◌∷◌, Text, text_eq,
  if◌then◌else◌,
}
use birr_track_backend.Shared.Exceptions.{ValidationError}
use birr_track_backend.Transactions.Validation as Validation
use birr_track_backend.Transactions.Validation.{
  Rule, is_int, PropertyRules, Value, missing, null, number, Body, value_of, Pipe,
}

-- What a rule asks of a value, and `Number(value)` of a value that is neither missing nor null.
pub record Validator (Num : Type 0) : Type 0 where
  pub passes : Rule → Value Num → Bool
  pub number_of : Value Num → Value Num

abbrev pub is_absent : {Num : Type 0} → Value Num → Bool
is_absent missing = true
is_absent null = true
is_absent _ = false

-- The types that a property may have under `@IsInt` and `@Min`.
pub record IsValidator {Num : Type 0} (nat_of : Num → Option ℕ) (v : Validator Num) : Type 0 where
  pub missing_stays : v.number_of missing ≡ missing
  pub number_made :
      (value : Value Num) → is_absent value ≡ false → (n : Num) × (v.number_of value ≡ number n)
  pub int_at_least :
      (n : Num) (k : ℕ)
      → v.passes is_int (number n) ≡ true
      → v.passes (Validation.min k) (number n) ≡ true
      → (m : ℕ) × (nat_of n ≡ some m) × (k ≤ m)

unfoldable pub is_numeric : Text → List PropertyRules → Bool
unfolding text_eq
is_numeric name [] = false
is_numeric name (p ∷ ps) = (text_eq p.name name && p.to_number) || is_numeric name ps

unfoldable pub is_listed : Text → List PropertyRules → Bool
unfolding text_eq
is_listed name [] = false
is_listed name (p ∷ ps) = text_eq p.name name || is_listed name ps

unfoldable pub all_listed : {Num : Type 0} → List PropertyRules → Body Num → Bool
unfolding is_listed
all_listed ps [] = true
all_listed ps ((key, value) ∷ body) = is_listed key ps && all_listed ps body

module _ {Num : Type 0} (v : Validator Num) where
  unfoldable pub passes_all : List Rule → Value Num → Bool
  passes_all [] value = true
  passes_all (rule ∷ rules) value = v.passes rule value && passes_all rules value

  -- A property that is optional and missing, or null, is not looked at.
  unfoldable pub is_valid : PropertyRules → Value Num → Bool
  unfolding passes_all
  is_valid p value = (p.is_optional && is_absent value) || passes_all p.rules value

  -- The object, with the numbers that `@Type(() => Number)` asks for.
  unfoldable pub converted : List PropertyRules → Body Num → Body Num
  unfolding is_numeric
  converted ps [] = []
  converted ps ((key, value) ∷ body) =
      (key, if is_numeric key ps then v.number_of value else value) ∷ converted ps body

  unfoldable pub all_valid : List PropertyRules → Body Num → Bool
  unfolding is_valid value_of
  all_valid [] body = true
  all_valid (p ∷ ps) body = is_valid p (value_of p.name body) && all_valid ps body

  -- The request is let through as the converted object if it has no other properties and each is
  -- valid, and is refused otherwise.
  pub record IsPipe {Json : Type 0} (pipe : Pipe Num Json) : Type 0 where
    pub accepted :
        (ps : List PropertyRules) (body : Body Num)
        → (all_listed ps body && all_valid ps (converted ps body)) ≡ true
        → pipe.transform
            (record { whitelist = true; transform = true; forbid_non_whitelisted = true })
            ps
            body
          ≡ inr (converted ps body)
    pub refused :
        (ps : List PropertyRules) (body : Body Num)
        → (all_listed ps body && all_valid ps (converted ps body)) ≡ false
        → (errors : List (ValidationError Json)) × (pipe.transform
              (record { whitelist = true; transform = true; forbid_non_whitelisted = true })
              ps
              body
            ≡ inl errors)
