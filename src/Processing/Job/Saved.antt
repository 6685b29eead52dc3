-- ===== src/Processing/Job/Saved.antt =====
-- What a receipt with all its critical fields does to the database and to the listeners.
use birr_track_backend.Base.{
  ◌≡◌, inl, inr, refl, sym, ap, subst, ◌∙◌, Bool, Option, some, List, [], ◌∷◌, ◌++◌, Text, is_some,
  Option-cases, find_first,
}
use birr_track_backend.Base.Results.{ok, err}
use birr_track_backend.Base.Effects.{Call-cases, ok_pair, err_pair, ok-ne-err, err-ne-ok}
use birr_track_backend.Js.Numbers.{JsNumber}
use birr_track_backend.Js.Dates.{JsDate}
use birr_track_backend.Transactions.Entities.{Transaction, EditLog}
use birr_track_backend.Transactions.Dto.{CreateTransactionDto}
use birr_track_backend.Transactions.Fields.{to_response}
use birr_track_backend.Transactions.Store.{Store, has_key, inserted}
use birr_track_backend.Transactions.Laws.{IsStore}
use birr_track_backend.Transactions.Service.{new_transaction, create, find_duplicate}
use birr_track_backend.Processing.Reading.{ImageProcessingJobPayload}
use birr_track_backend.Processing.Job.{Backend, Critical, create_dto, save_receipt}

module _ {Num Time : Type 0} ⦃js : JsNumber Num⦄ ⦃dates : JsDate Time⦄ where
  -- A row with the id, the amount and the instant of a receipt.
  abbrev pub same_receipt : Critical Num → Time → Transaction Num Time → Bool
  same_receipt fields t = has_key fields.transaction_id (js.to_fixed_2 fields.amount) t

module _ {S Num Time : Type 0} ⦃js : JsNumber Num⦄ ⦃dates : JsDate Time⦄ (store : Store S Num Time)
    {rows : S → List (Transaction Num Time)} {logs : S → List EditLog}
    (laws : IsStore store rows logs) where
  -- The row that a receipt adds, and what came with it.
  pub record Saved (payload : ImageProcessingJobPayload) (file_url : Text) (confidence : Num)
      (fields : Critical Num) (b b' : Backend S Num Time) : Type 0 where
    pub row : Transaction Num Time
    pub date : dates.date_of fields.timestamp ≡ some row.timestamp
    pub rows_after : rows b'.db ≡ rows b.db ++ row ∷ []
    pub logs_after : logs b'.db ≡ logs b.db
    pub event : b'.emitted ≡ b.emitted ++ to_response row ∷ []
    pub flag :
        row.is_duplicate ≡ is_some (find_first (same_receipt fields row.timestamp) (rows b.db))
    pub columns :
        row
        ≡ inserted
            (new_transaction (create_dto payload file_url fields confidence row.is_duplicate))
            row.id
            row.timestamp
            row.created_at

  pub looked_up :
      (fields : Critical Num) (s s1 : S) (o : Option (Transaction Num Time)) (t : Time)
      → dates.date_of fields.timestamp ≡ some t
      → find_duplicate store fields.transaction_id fields.amount fields.timestamp s ≡ (ok o, s1)
      → (s1 ≡ s) × (o ≡ find_first (same_receipt fields t) (rows s))
  unfolding find_duplicate
  looked_up fields s s1 o t date looked =
      laws.find_by_key_ok fields.transaction_id (js.to_fixed_2 fields.amount) t s s1 o
        (rw (date, find_duplicate) at looked)

  -- The new row, in terms of the state before the lookup.
  pub stored :
      (payload : ImageProcessingJobPayload) (file_url : Text) (confidence : Num)
      (fields : Critical Num) (b : Backend S Num Time) (s1 s2 : S)
      (o : Option (Transaction Num Time)) (t : Transaction Num Time)
      → find_duplicate store fields.transaction_id fields.amount fields.timestamp b.db ≡ (ok o, s1)
      → create store (create_dto payload file_url fields confidence (is_some o)) s1 ≡ (ok t, s2)
      → Saved payload file_url confidence fields b
          (record { db = s2; emitted = b.emitted ++ to_response t ∷ [] })
  unfolding create
  stored payload file_url confidence fields b s1 s2 o t looked made =
      let dto : CreateTransactionDto Num =
        create_dto payload file_url fields confidence (is_some o) in
      let (valid, row_is, rows_s2, logs_s2, _) =
        laws.save_transaction_ok (new_transaction dto) s1 s2 t made in
      let date_is : dates.date_of fields.timestamp ≡ some t.timestamp =
        unfold new_transaction create_dto in valid in
      let (same, o_is) = looked_up fields b.db s1 o t.timestamp date_is looked in
      let flag_is : t.is_duplicate ≡ is_some o =
        unfold inserted new_transaction create_dto in
        ap (λ (r : Transaction Num Time). r.is_duplicate) row_is in
      record {
        row = t;
        date = date_is;
        rows_after = rows_s2 ∙ ap (λ z. rows z ++ t ∷ []) same;
        logs_after = logs_s2 ∙ ap logs same;
        event = refl;
        flag = flag_is ∙ ap is_some o_is;
        columns =
            subst
              (λ f.
                t
                ≡ inserted (new_transaction (create_dto payload file_url fields confidence f)) t.id
                    t.timestamp t.created_at)
              (sym flag_is) row_is;
      }

  pub save_receipt-Saved :
      (payload : ImageProcessingJobPayload) (file_url : Text) (confidence : Num)
      (fields : Critical Num) (b b' : Backend S Num Time) (u : Unit {0})
      → save_receipt store payload file_url confidence fields b ≡ (ok u, b')
      → Saved payload file_url confidence fields b b'
  unfolding save_receipt
  save_receipt-Saved payload file_url confidence fields b b' u e =
      elim (Call-cases
        (find_duplicate store fields.transaction_id fields.amount fields.timestamp b.db)) [
          | inr (m, s1, failed) ↦ absurd (err-ne-ok (rw (failed, save_receipt) at e))
          | inl (o, s1, looked) ↦
              let dto : CreateTransactionDto Num =
                create_dto payload file_url fields confidence (is_some o) in
              elim (Call-cases (create store dto s1)) [
                | inr (m, s2, failed) ↦ absurd (err-ne-ok (rw (looked, failed) at e))
                | inl (t, s2, made) ↦
                    subst (Saved payload file_url confidence fields b)
                      (ok_pair (rw (looked, made) at e)).1
                      (stored payload file_url confidence fields b s1 s2 o t looked made)
              ]
        ]

  pub lookup_keeps :
      (fields : Critical Num) (s s1 : S) (o : Option (Transaction Num Time))
      → find_duplicate store fields.transaction_id fields.amount fields.timestamp s ≡ (ok o, s1)
      → s1 ≡ s
  unfolding find_duplicate
  lookup_keeps fields s s1 o looked = elim (Option-cases (dates.date_of fields.timestamp)) [
    | inl invalid ↦ absurd (
        laws.find_by_key_invalid fields.transaction_id (js.to_fixed_2 fields.amount) s s1 o
          (rw (invalid, find_duplicate) at looked))
    | inr (t, date) ↦ (looked_up fields s s1 o t date looked).0
  ]

  pub save_receipt_err :
      (payload : ImageProcessingJobPayload) (file_url : Text) (confidence : Num)
      (fields : Critical Num) (b b' : Backend S Num Time) (m : Text)
      → save_receipt store payload file_url confidence fields b ≡ (err m, b')
      → b' ≡ b
  unfolding save_receipt create
  save_receipt_err payload file_url confidence fields b b' m e =
      elim (Call-cases
        (find_duplicate store fields.transaction_id fields.amount fields.timestamp b.db)) [
          | inr (n, s1, failed) ↦
              sym (err_pair (rw (failed, save_receipt) at e)).1
              ∙ ap (λ z. record b { db = z })
                  (unfold find_duplicate in
                    laws.find_by_key_err fields.transaction_id (js.to_fixed_2 fields.amount)
                      (dates.date_of fields.timestamp) b.db s1 n failed)
          | inl (o, s1, looked) ↦
              let dto : CreateTransactionDto Num =
                create_dto payload file_url fields confidence (is_some o) in
              elim (Call-cases (create store dto s1)) [
                | inl (t, s2, made) ↦ absurd (ok-ne-err (rw (looked, made) at e))
                | inr (n, s2, failed) ↦
                    sym (err_pair (rw (looked, failed) at e)).1
                    ∙ ap (λ z. record b { db = z })
                        (laws.save_transaction_err (new_transaction dto) s1 s2 n failed
                          ∙ lookup_keeps fields b.db s1 o looked)
              ]
        ]
