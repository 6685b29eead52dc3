-- ===== src/Transactions/Update/Described.antt =====
-- What an edit makes of a row, column by column.
use birr_track_backend.Base.{
  ◌≡◌, inl, inr, refl, ap, subst, ◌∙◌, Bool, false, Option, none, some, List, [], ◌∷◌, Text, keep,
  Bool-cases,
}
use birr_track_backend.Base.Results.{ok, Result-cases, ok-injective}
use birr_track_backend.Js.Numbers.{JsNumber}
use birr_track_backend.Js.Dates.{JsDate}
use birr_track_backend.Transactions.Entities.{Transaction}
use birr_track_backend.Transactions.Dto.{Given, absent, null, given, UpdateTransactionDto}
use birr_track_backend.Transactions.Fields.{
  EditableField, amount, transaction_id, timestamp, bank_name, confidence, image_url, is_present,
  fixed_amount, patch_date, Patch, is_given, get_update_fields, prepare_update_payload,
}
use birr_track_backend.Transactions.Store.{column, date_column, nullable_column, patch_row}

-- A request that gives no field.
pub record IsEmpty {Num : Type 0} (dto : UpdateTransactionDto Num) : Type 0 where
  pub amount : dto.amount ≡ absent
  pub transaction_id : dto.transaction_id ≡ absent
  pub timestamp : dto.timestamp ≡ absent
  pub bank_name : dto.bank_name ≡ absent
  pub confidence : dto.confidence ≡ absent
  pub image_url : dto.image_url ≡ absent

-- A column that a request edits: it keeps its value if the request leaves it out, and a value of the
-- request makes of it what `R` says.
pub record IsEdited {A B : Type 0} (R : A → B → Type 0) (value : Given A) (before after : B)
    : Type 0 where
  pub kept : value ≡ absent → after ≡ before
  pub taken : (a : A) → value ≡ given a → R a after

module _ {Num Time : Type 0} ⦃js : JsNumber Num⦄ ⦃dates : JsDate Time⦄ where
  -- A row after an edit. Only the six columns of the request can differ: the amount is the text with
  -- two places, the timestamp the text's date, if it has one, or the epoch for a null, and a null
  -- empties the image's address.
  pub record IsEditedRow (dto : UpdateTransactionDto Num) (before after : Transaction Num Time)
      : Type 0 where
    pub amount : IsEdited (λ n text. text ≡ js.to_fixed_2 n) dto.amount before.amount after.amount
    pub transaction_id :
        IsEdited (λ a b. b ≡ a) dto.transaction_id before.transaction_id after.transaction_id
    pub timestamp :
        IsEdited
          (λ text t. (u : Time) → dates.date_of text ≡ some u → t ≡ u)
          dto.timestamp
          before.timestamp
          after.timestamp
    pub timestamp_null : dto.timestamp ≡ null → after.timestamp ≡ dates.epoch
    pub bank_name : IsEdited (λ a b. b ≡ a) dto.bank_name before.bank_name after.bank_name
    pub confidence : IsEdited (λ a b. b ≡ a) dto.confidence before.confidence after.confidence
    pub image_url : IsEdited (λ a b. b ≡ some a) dto.image_url before.image_url after.image_url
    pub image_url_null : dto.image_url ≡ null → after.image_url ≡ none
    pub id : after.id ≡ before.id
    pub telegram_user_id : after.telegram_user_id ≡ before.telegram_user_id
    pub telegram_name : after.telegram_name ≡ before.telegram_name
    pub is_duplicate : after.is_duplicate ≡ before.is_duplicate
    pub created_at : after.created_at ≡ before.created_at

keep_none :
    (p : EditableField → Bool) (f : EditableField) (fs : List EditableField)
    → keep p (f ∷ fs) ≡ []
    → (p f ≡ false) × (keep p fs ≡ [])
keep_none p f fs e = elim (Bool-cases (p f)) [
  | inl here ↦ absurd (cc (rw here at e))
  | inr left_out ↦ (left_out, rw left_out at e)
]

absent_lem : {A : Type 0} (value : Given A) → is_present value ≡ false → value ≡ absent
absent_lem absent e = refl
absent_lem null e = absurd (cc)
absent_lem (given a) e = absurd (cc)

module _ {Num : Type 0} where
  pub get_update_fields-IsEmpty :
      (dto : UpdateTransactionDto Num) → get_update_fields dto ≡ [] → IsEmpty dto
  unfolding get_update_fields is_given
  get_update_fields-IsEmpty dto e =
      let (a, e1) =
        keep_none (is_given dto) amount
          (transaction_id ∷ timestamp ∷ bank_name ∷ confidence ∷ image_url ∷ []) e in
      let (b, e2) =
        keep_none (is_given dto) transaction_id
          (timestamp ∷ bank_name ∷ confidence ∷ image_url ∷ []) e1 in
      let (c, e3) =
        keep_none (is_given dto) timestamp (bank_name ∷ confidence ∷ image_url ∷ []) e2 in
      let (d, e4) = keep_none (is_given dto) bank_name (confidence ∷ image_url ∷ []) e3 in
      let (f, e5) = keep_none (is_given dto) confidence (image_url ∷ []) e4 in
      let (g, _) = keep_none (is_given dto) image_url [] e5 in
      record {
        amount = absent_lem dto.amount a;
        transaction_id = absent_lem dto.transaction_id b;
        timestamp = absent_lem dto.timestamp c;
        bank_name = absent_lem dto.bank_name d;
        confidence = absent_lem dto.confidence f;
        image_url = absent_lem dto.image_url g;
      }

  pub get_update_fields-none :
      (dto : UpdateTransactionDto Num) → IsEmpty dto → get_update_fields dto ≡ []
  unfolding get_update_fields is_given
  get_update_fields-none dto e =
      rw (e.amount, e.transaction_id, e.timestamp, e.bank_name, e.confidence, e.image_url) refl

column-IsEdited :
    {A : Type 0} (value : Given A) (before : A)
    → IsEdited (λ a b. b ≡ a) value before (column before value)
column-IsEdited absent before = record { kept = λ e. refl; taken = λ a e. absurd (cc) }
column-IsEdited null before = record { kept = λ e. absurd (cc); taken = λ a e. absurd (cc) }
column-IsEdited (given a) before = record { kept = λ e. absurd (cc); taken = λ b e. cc }

nullable-IsEdited :
    {A : Type 0} (value : Given A) (before : Option A)
    → IsEdited (λ a b. b ≡ some a) value before (nullable_column before value)
      × (value ≡ null → nullable_column before value ≡ none)
nullable-IsEdited absent before =
    (record { kept = λ e. refl; taken = λ a e. absurd (cc) }, λ e. absurd (cc))
nullable-IsEdited null before =
    (record { kept = λ e. absurd (cc); taken = λ a e. absurd (cc) }, λ e. refl)
nullable-IsEdited (given a) before =
    (record { kept = λ e. absurd (cc); taken = λ b e. cc }, λ e. absurd (cc))

module _ {Time : Type 0} ⦃dates : JsDate Time⦄ where
  date-IsEdited :
      (value : Given Text) (before : Time)
      → IsEdited
          (λ text t. (u : Time) → dates.date_of text ≡ some u → t ≡ u)
          value
          before
          (date_column before (patch_date value))
        × (value ≡ null → date_column before (patch_date value) ≡ dates.epoch)
  date-IsEdited absent before =
      (record { kept = λ e. refl; taken = λ a e. absurd (cc) }, λ e. absurd (cc))
  date-IsEdited null before =
      (record { kept = λ e. absurd (cc); taken = λ a e. absurd (cc) }, λ e. refl)
  date-IsEdited (given a) before = (
    record {
      kept = λ e. absurd (cc);
      taken = λ b e u h.
          let same : a ≡ b = cc in
          let read : dates.date_of a ≡ some u = ap dates.date_of same ∙ h in rw read refl;
    },
    λ e. absurd (cc),
  )

module _ {Num : Type 0} ⦃js : JsNumber Num⦄ where
  amount-IsEdited :
      (value : Given Num) (fixed : Given Text) (before : Text)
      → fixed_amount value ≡ ok fixed
      → IsEdited (λ n text. text ≡ js.to_fixed_2 n) value before (column before fixed)
  amount-IsEdited absent fixed before h =
      let is : absent ≡ fixed = cc in
      subst (λ z. IsEdited (λ n text. text ≡ js.to_fixed_2 n) absent before (column before z)) is
        (record { kept = λ e. refl; taken = λ a e. absurd (cc) })
  amount-IsEdited null fixed before h = absurd (cc)
  amount-IsEdited (given n) fixed before h =
      let is : given (js.to_fixed_2 n) ≡ fixed = cc in
      subst (λ z. IsEdited (λ n text. text ≡ js.to_fixed_2 n) (given n) before (column before z)) is
        (record {
          kept = λ e. absurd (cc);
          taken = λ m e. let same : n ≡ m = cc in ap js.to_fixed_2 same;
        })

module _ {Num Time : Type 0} ⦃js : JsNumber Num⦄ ⦃dates : JsDate Time⦄ where
  pub patch_row-IsEditedRow :
      (dto : UpdateTransactionDto Num) (patch : Patch Num Time) (row : Transaction Num Time)
      → prepare_update_payload dto ≡ ok patch
      → IsEditedRow dto row (patch_row patch row)
  unfolding prepare_update_payload patch_row
  patch_row-IsEditedRow dto patch row e = elim (Result-cases (fixed_amount dto.amount)) [
    | inr (m, failed) ↦ absurd (cc (rw failed at e))
    | inl (fixed, fixes) ↦
        subst (λ p. IsEditedRow dto row (patch_row p row)) (ok-injective (rw fixes at e))
          (record {
            amount = amount-IsEdited dto.amount fixed row.amount fixes;
            transaction_id = column-IsEdited dto.transaction_id row.transaction_id;
            timestamp = (date-IsEdited dto.timestamp row.timestamp).0;
            timestamp_null = (date-IsEdited dto.timestamp row.timestamp).1;
            bank_name = column-IsEdited dto.bank_name row.bank_name;
            confidence = column-IsEdited dto.confidence row.confidence;
            image_url = (nullable-IsEdited dto.image_url row.image_url).0;
            image_url_null = (nullable-IsEdited dto.image_url row.image_url).1;
            id = refl;
            telegram_user_id = refl;
            telegram_name = refl;
            is_duplicate = refl;
            created_at = refl;
          })
  ]
