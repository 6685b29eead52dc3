-- ===== src/Transactions/Validation/Nulls.antt =====
-- That null passes the validation of an update.
use birr_track_backend.Base.{
  ◌≡◌, inr, refl, ap, true, ◌&&◌, List, [], ◌∷◌, All, Text, codes, text_eq,
}
use birr_track_backend.Transactions.Validation.{
  PropertyRules, update_rules, null, Body, value_of, Pipe, validated,
}
use birr_track_backend.Transactions.Validation.Documented.{
  Validator, is_valid, is_numeric, is_listed, converted, all_listed, all_valid, IsPipe,
}

-- `{ "timestamp": null }`
abbrev pub only_null : {Num : Type 0} → Body Num
only_null = (codes "timestamp", null) ∷ []

module _ {Num Json : Type 0} (v : Validator Num) (pipe : Pipe Num Json)
    (documented : IsPipe v pipe) where
  accepted_as_is :
      (ps : List PropertyRules) (body : Body Num)
      → converted v ps body ≡ body
      → (all_listed ps body && all_valid v ps (converted v ps body)) ≡ true
      → validated pipe ps body ≡ inr body
  unfolding validated
  accepted_as_is ps body same good = rw (documented.accepted ps body good) (ap inr same)

  -- A null passes `@IsOptional` at each property of an update.
  pub nulls_accepted :
      All
        (λ p. validated pipe update_rules ((p.name, null) ∷ []) ≡ inr ((p.name, null) ∷ []))
        update_rules
  unfolding all_listed all_valid is_listed is_valid converted is_numeric value_of text_eq
  nulls_accepted =
      let only : Text → Body Num = λ name. (name, null) ∷ [] in
      let go = accepted_as_is update_rules in
      (
        go (only (codes "amount")) refl refl,
        (
          go (only (codes "transactionId")) refl refl,
          (
            go (only (codes "timestamp")) refl refl,
            (
              go (only (codes "bankName")) refl refl,
              (
                go (only (codes "confidence")) refl refl,
                (go (only (codes "imageUrl")) refl refl, tt),
              ),
            ),
          ),
        ),
      )
