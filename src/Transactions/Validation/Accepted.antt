-- ===== src/Transactions/Validation/Accepted.antt =====
-- What a query that passes the validation is like, and that the others are refused.
use native.Mathlib.Nat.{suc-mul}
use birr_track_backend.Base.{
  ℕ, zero, suc, ◌+◌, ◌-◌, ◌*◌, ◌≤◌, ◌≡◌, ◌≢◌, ◌⊎◌, inl, inr, refl, sym, subst, arith, true, false,
  ◌&&◌, ◌||◌, Option, some, List, [], ◌∷◌, Text, codes, text_eq, Bool-cases, and_true,
  eq_of_text_eq, min,
}
use birr_track_backend.Js.Dates.{JsDate}
use birr_track_backend.Shared.Exceptions.{
  validation_exception, Exception, validation, response_data,
}
use birr_track_backend.Transactions.Dto.{
  default_page, default_page_limit, max_page_limit, GetTransactionsQueryDto, get_effective_limit,
}
use birr_track_backend.Transactions.Query.{page_query}
use birr_track_backend.Transactions.Validation as Validation
use birr_track_backend.Transactions.Validation.{
  is_int, PropertyRules, query_rules, Value, missing, null, other, boolean, number, text, numeric,
  Body, value_of, Pipe, initialised, dto_of, query_of, or_exception, validated,
}
use birr_track_backend.Transactions.Validation.Documented.{
  Validator, is_absent, IsValidator, passes_all, is_valid, is_numeric, converted, all_listed,
  all_valid, IsPipe,
}

-- The page that a query asks for exists, and ends where the first pages of that size do.
pub record IsPaged (Time : Type 0) ⦃dates : JsDate Time⦄ (dto : GetTransactionsQueryDto)
    : Type 0 where
  pub first_page : 1 ≤ dto.page
  pub some_rows : 1 ≤ get_effective_limit dto
  pub few_rows : get_effective_limit dto ≤ max_page_limit
  pub ends :
      (page_query {Time = Time} dto).skip + get_effective_limit dto
      ≡ dto.page * get_effective_limit dto

page_end : (page limit : ℕ) → 1 ≤ page → (page - 1) * limit + limit ≡ page * limit
page_end zero limit h = absurd (omega arith)
page_end (suc page) limit h =
    let less : suc page - 1 ≡ page = omega arith in rw less (sym (suc-mul page limit))

paged :
    {Time : Type 0} ⦃dates : JsDate Time⦄ (dto : GetTransactionsQueryDto)
    → 1 ≤ dto.page
    → 1 ≤ dto.limit
    → IsPaged Time dto
unfolding get_effective_limit
paged dto page_least limit_least = record {
  first_page = page_least;
  some_rows = omega arith;
  few_rows = omega arith;
  ends = page_end dto.page (min dto.limit max_page_limit) page_least;
}

module _ {Num : Type 0} (v : Validator Num) (nat_of : Num → Option ℕ)
    (laws : IsValidator nat_of v) where
  value_of-converted :
      (ps : List PropertyRules) (name : Text) (body : Body Num)
      → is_numeric name ps ≡ true
      → value_of name (converted v ps body) ≡ v.number_of (value_of name body)
  unfolding value_of converted
  value_of-converted ps name [] numeric = rw laws.missing_stays refl
  value_of-converted ps name ((key, value) ∷ body) numeric = elim (Bool-cases (text_eq key name)) [
    | inl same ↦
        rw (same, subst (λ z. is_numeric z ps ≡ true) (sym (eq_of_text_eq key name same)) numeric)
          refl
    | inr different ↦ rw different (value_of-converted ps name body numeric)
  ]

  at_number :
      (initial k : ℕ) (value : Value Num)
      → is_absent value ≡ false
      → (is_absent (v.number_of value)
          || passes_all v (is_int ∷ Validation.min k ∷ []) (v.number_of value))
        ≡ true
      → (m : ℕ) × (initialised nat_of initial (v.number_of value) ≡ some m) × (k ≤ m)
  unfolding passes_all
  at_number initial k value present valid =
      let (n, made) = laws.number_made value present in
      let (int, rest) =
        and_true (v.passes is_int (number n)) (v.passes (Validation.min k) (number n) && true)
          (rw made at valid) in
      let (large, _) = and_true (v.passes (Validation.min k) (number n)) true rest in
      rw made (laws.int_at_least n k int large)

  -- A value that is not null, once it is a number where the rules let it through, or the default.
  initialised-at_least :
      (initial k : ℕ) (value : Value Num)
      → value ≢ null
      → k ≤ initial
      → (is_absent (v.number_of value)
          || passes_all v (is_int ∷ Validation.min k ∷ []) (v.number_of value))
        ≡ true
      → (m : ℕ) × (initialised nat_of initial (v.number_of value) ≡ some m) × (k ≤ m)
  initialised-at_least initial k missing not_null least valid =
      rw laws.missing_stays (initial, refl, least)
  initialised-at_least initial k null not_null least valid = absurd (not_null refl)
  initialised-at_least initial k other not_null least valid = at_number initial k other refl valid
  initialised-at_least initial k (boolean b) not_null least valid =
      at_number initial k (boolean b) refl valid
  initialised-at_least initial k (number n) not_null least valid =
      at_number initial k (number n) refl valid
  initialised-at_least initial k (text t) not_null least valid =
      at_number initial k (text t) refl valid

  -- A numeric property of an accepted query.
  numeric_value :
      (body : Body Num) (name : Text) (initial : ℕ)
      → is_numeric name query_rules ≡ true
      → value_of name body ≢ null
      → 1 ≤ initial
      → is_valid v (numeric name) (value_of name (converted v query_rules body)) ≡ true
      → (m : ℕ) × (initialised nat_of initial (value_of name (converted v query_rules body))
          ≡ some m)
        × (1 ≤ m)
  unfolding is_valid
  numeric_value body name initial is_number not_null least valid =
      let same = value_of-converted query_rules name body is_number in
      rw same
        (initialised-at_least initial 1 (value_of name body) not_null least (rw same at valid))

  query_of-IsPaged :
      {Time : Type 0} ⦃dates : JsDate Time⦄ (body : Body Num)
      → value_of (codes "page") body ≢ null
      → value_of (codes "limit") body ≢ null
      → all_valid v query_rules (converted v query_rules body) ≡ true
      → (dto : GetTransactionsQueryDto) × (query_of nat_of (converted v query_rules body)
          ≡ some dto)
        × IsPaged Time dto
  unfolding query_of all_valid query_rules is_numeric text_eq get_effective_limit
  query_of-IsPaged body page_given limit_given valid =
      let object = converted v query_rules body in
      let (page_valid, rest) =
        and_true (is_valid v (numeric (codes "page")) (value_of (codes "page") object)) _ valid in
      let (limit_valid, _) =
        and_true (is_valid v (numeric (codes "limit")) (value_of (codes "limit") object)) _ rest in
      let (page, page_is, page_least) =
        numeric_value body (codes "page") default_page refl page_given (omega arith) page_valid in
      let (limit, limit_is, limit_least) =
        numeric_value body (codes "limit") default_page_limit refl limit_given (omega arith)
          limit_valid in
      (
        dto_of page limit object,
        rw (page_is, limit_is) refl,
        paged (dto_of page limit object) page_least limit_least,
      )

  module _ {Json Time : Type 0} ⦃dates : JsDate Time⦄ (pipe : Pipe Num Json)
      (documented : IsPipe v pipe) where
    -- A query whose numbers are not null, as a query string's never are, is refused with the status 422,
    -- or it is let through as a request whose page is 1 at least, and of between 1 and 100 rows; its
    -- rows end where that many pages of that size end.
    pub validated_bounds :
        (body : Body Num)
        → value_of (codes "page") body ≢ null
        → value_of (codes "limit") body ≢ null
        → ((e : Exception Json) × (validated pipe query_rules body ≡ inl e)
            × ((response_data e).status_code ≡ 422))
          ⊎ ((object : Body Num) × (validated pipe query_rules body ≡ inr object)
              × (dto : GetTransactionsQueryDto) × (query_of nat_of object ≡ some dto)
              × IsPaged Time dto)
    unfolding validated response_data validation_exception
    validated_bounds body page_given limit_given =
        elim (Bool-cases
          (all_listed query_rules body && all_valid v query_rules (converted v query_rules body))) [
            | inl good ↦
                let (_, valid) = and_true (all_listed query_rules body) _ good in
                let (dto, is_dto, bounds) = query_of-IsPaged body page_given limit_given valid in
                inr (
                  converted v query_rules body,
                  rw (documented.accepted query_rules body good) refl,
                  dto,
                  is_dto,
                  bounds,
                )
            | inr bad ↦
                let (errors, refused) = documented.refused query_rules body bad in
                inl (validation (validation_exception errors), rw refused refl, refl)
          ]
