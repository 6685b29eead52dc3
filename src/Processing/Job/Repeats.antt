-- ===== src/Processing/Job/Repeats.antt =====
-- The duplicate flag of a receipt that comes in again: after the first job, and beside it.
use mathlib.Core.List.{append_assoc}
use mathlib.Core.Path.{fun_ext}
use birr_track_backend.Base.{
  ◌≡◌, sym, ap, subst, ◌∙◌, Bool, true, false, Option, none, some, List, [], ◌∷◌, ◌++◌, Text,
  is_some, find_first, find_first-ne-none,
}
use birr_track_backend.Base.Results.{ok}
use birr_track_backend.Js.Numbers.{JsNumber}
use birr_track_backend.Js.Dates.{JsDate}
use birr_track_backend.Transactions.Entities.{Transaction, EditLog}
use birr_track_backend.Transactions.Dto.{CreateTransactionDto}
use birr_track_backend.Transactions.Store.{Store, inserted}
use birr_track_backend.Transactions.Laws.{IsStore}
use birr_track_backend.Transactions.Service.{new_transaction, create, find_duplicate}
use birr_track_backend.Transactions.Service.Duplicates.{inserted-has_key}
use birr_track_backend.Processing.Reading.{ImageProcessingJobPayload}
use birr_track_backend.Processing.Job.{Backend, Critical, create_dto, save_receipt}
use birr_track_backend.Processing.Job.Saved.{same_receipt, Saved, save_receipt-Saved, looked_up}

-- Two receipts with one id, amount and timestamp.
pub record SameKey {Num : Type 0} (f g : Critical Num) : Type 0 where
  pub transaction_id : f.transaction_id ≡ g.transaction_id
  pub amount : f.amount ≡ g.amount
  pub timestamp : f.timestamp ≡ g.timestamp

some_same {ℓ} : {A : Type ℓ} {a b : A} → some a ≡ some b → a ≡ b
some_same e = cc

module _ {S Num Time : Type 0} ⦃js : JsNumber Num⦄ ⦃dates : JsDate Time⦄ (store : Store S Num Time)
    {rows : S → List (Transaction Num Time)} {logs : S → List EditLog}
    (laws : IsStore store rows logs) where
  -- A row that was added has the key of its receipt.
  Saved-same_receipt :
      (payload : ImageProcessingJobPayload) (url : Text) (c : Num) (fields : Critical Num)
      (b b' : Backend S Num Time) (saved : Saved store laws payload url c fields b b')
      → same_receipt fields saved.row.timestamp saved.row ≡ true
  Saved-same_receipt payload url c fields b b' saved =
      subst (λ r. same_receipt fields saved.row.timestamp r ≡ true) (sym saved.columns)
        (unfold create_dto in
          inserted-has_key (create_dto payload url fields c saved.row.is_duplicate) saved.row.id
            saved.row.timestamp saved.row.created_at)

  same_instant :
      (f g : Critical Num) (t u : Time)
      → SameKey f g
      → dates.date_of f.timestamp ≡ some t
      → dates.date_of g.timestamp ≡ some u
      → t ≡ u
  same_instant f g t u same ft gu = some_same (sym ft ∙ (ap dates.date_of same.timestamp ∙ gu))

  same_test :
      (f g : Critical Num) (t : Time) (r : Transaction Num Time)
      → SameKey f g
      → same_receipt f t r ≡ same_receipt g t r
  same_test f g t r same = rw (same.transaction_id, same.amount)

  -- A receipt whose id, amount and timestamp were saved by an earlier job is saved again, as a row of
  -- its own that is flagged as a duplicate, whatever rows were added in between.
  pub save_receipt-repeat :
      (payload payload' : ImageProcessingJobPayload) (url url' : Text) (c c' : Num)
      (fields fields' : Critical Num) (b b1 b2 b3 : Backend S Num Time)
      (more : List (Transaction Num Time)) (u u' : Unit {0})
      → SameKey fields fields'
      → save_receipt store payload url c fields b ≡ (ok u, b1)
      → rows b2.db ≡ rows b1.db ++ more
      → save_receipt store payload' url' c' fields' b2 ≡ (ok u', b3)
      → (row : Transaction Num Time) × (rows b3.db ≡ rows b2.db ++ row ∷ [])
        × (row.is_duplicate ≡ true)
  save_receipt-repeat payload payload' url url' c c' fields fields' b b1 b2 b3 more u u' same e
        added e' =
      let first = save_receipt-Saved store laws payload url c fields b b1 u e in
      let again = save_receipt-Saved store laws payload' url' c' fields' b2 b3 u' e' in
      let instant =
        same_instant fields fields' first.row.timestamp again.row.timestamp same first.date
          again.date in
      let key : same_receipt fields' again.row.timestamp first.row ≡ true =
        subst (λ t. same_receipt fields' t first.row ≡ true) instant
          (sym (same_test fields fields' first.row.timestamp first.row same)
            ∙ Saved-same_receipt payload url c fields b b1 first) in
      let table : rows b2.db ≡ rows b.db ++ (first.row ∷ more) =
        added
        ∙ (ap (λ z. z ++ more) first.rows_after ∙ append_assoc (rows b.db) (first.row ∷ []) more) in
      (
        again.row,
        again.rows_after,
        again.flag
            ∙ (ap (λ z. is_some (find_first (same_receipt fields' again.row.timestamp) z)) table
                ∙ find_first-ne-none (same_receipt fields' again.row.timestamp) (rows b.db) more
                    first.row key),
      )

  created :
      (payload : ImageProcessingJobPayload) (url : Text) (c : Num) (fields : Critical Num)
      (flag : Bool) (s s' : S) (t : Transaction Num Time)
      → create store (create_dto payload url fields c flag) s ≡ (ok t, s')
      → (dates.date_of fields.timestamp ≡ some t.timestamp)
        × (rows s' ≡ rows s ++ t ∷ [])
        × (t.is_duplicate ≡ flag)
        × (same_receipt fields t.timestamp t ≡ true)
  unfolding create create_dto new_transaction
  created payload url c fields flag s s' t made =
      let dto : CreateTransactionDto Num = create_dto payload url fields c flag in
      let (valid, row_is, rows_s', _, _) =
        laws.save_transaction_ok (new_transaction dto) s s' t made in
      (
        valid,
        rows_s',
        unfold inserted in ap (λ (r : Transaction Num Time). r.is_duplicate) row_is,
        subst (λ r. same_receipt fields t.timestamp r ≡ true) (sym row_is)
            (inserted-has_key dto t.id t.timestamp t.created_at),
      )

  -- Two workers whose lookups both come before either insertion, as the queue's concurrency of 2
  -- allows, save one receipt twice, and neither row is flagged as a duplicate.
  pub save_receipt_race :
      (payload payload' : ImageProcessingJobPayload) (url url' : Text) (c c' : Num)
      (fields fields' : Critical Num) (s s1 s2 s3 s4 : S) (o o' : Option (Transaction Num Time))
      (t t' : Transaction Num Time)
      → SameKey fields fields'
      → find_duplicate store fields.transaction_id fields.amount fields.timestamp s ≡ (ok o, s1)
      → find_duplicate store fields'.transaction_id fields'.amount fields'.timestamp s1
        ≡ (ok o', s2)
      → create store (create_dto payload url fields c (is_some o)) s2 ≡ (ok t, s3)
      → create store (create_dto payload' url' fields' c' (is_some o')) s3 ≡ (ok t', s4)
      → find_first (same_receipt fields t.timestamp) (rows s) ≡ none
      → (rows s4 ≡ rows s ++ t ∷ t' ∷ [])
        × (t.is_duplicate ≡ false)
        × (t'.is_duplicate ≡ false)
        × (same_receipt fields t.timestamp t' ≡ true)
  save_receipt_race payload payload' url url' c c' fields fields' s s1 s2 s3 s4 o o' t t' same l l'
        m m' no_row =
      let (date, rows_s3, flag, key) = created payload url c fields (is_some o) s2 s3 t m in
      let (date', rows_s4, flag', key') =
        created payload' url' c' fields' (is_some o') s3 s4 t' m' in
      let instant = same_instant fields fields' t.timestamp t'.timestamp same date date' in
      let (s1_is, o_is) = looked_up store laws fields s s1 o t.timestamp date l in
      let (s2_is, o'_is) = looked_up store laws fields' s1 s2 o' t'.timestamp date' l' in
      let tests : same_receipt fields' t'.timestamp ≡ same_receipt fields t.timestamp =
        subst (λ z. same_receipt fields' z ≡ same_receipt fields t.timestamp) instant
          (fun_ext (λ r. sym (same_test fields fields' t.timestamp r same))) in
      let o_none : o ≡ none = o_is ∙ no_row in
      let o'_none : o' ≡ none =
        o'_is
        ∙ (ap (λ z. find_first z (rows s1)) tests
            ∙ (ap (λ z. find_first (same_receipt fields t.timestamp) (rows z)) s1_is ∙ no_row)) in
      (
        rows_s4
            ∙ (ap (λ z. z ++ t' ∷ []) (rows_s3 ∙ ap (λ z. rows z ++ t ∷ []) (s2_is ∙ s1_is))
                ∙ append_assoc (rows s) (t ∷ []) (t' ∷ [])),
        flag ∙ ap is_some o_none,
        flag' ∙ ap is_some o'_none,
        ap (λ z. z t') (sym tests) ∙ key',
      )
