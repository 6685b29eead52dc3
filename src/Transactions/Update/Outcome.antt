-- ===== src/Transactions/Update/Outcome.antt =====
-- What an update has done when it returns, and when it throws.
use birr_track_backend.Base.{
  ◌≡◌, ◌≢◌, inl, inr, refl, sym, ap, subst, ◌∙◌, Option, none, some, List, [], ◌∷◌, ◌++◌, map, Text,
  find_first, Bool-cases, text_eq_iff,
}
use birr_track_backend.Base.Results.{ok, err}
use birr_track_backend.Base.Effects.{Call-cases, ok_pair, err_pair, ok-ne-err, err-ne-ok}
use birr_track_backend.Js.Numbers.{JsNumber}
use birr_track_backend.Js.Dates.{JsDate}
use birr_track_backend.Transactions.Entities.{Transaction, TransactionResponse, EditLog}
use birr_track_backend.Transactions.Dto.{UpdateTransactionDto}
use birr_track_backend.Transactions.Fields.{
  EditableField, Patch, get_update_fields, prepare_update_payload, to_response,
}
use birr_track_backend.Transactions.Store.{Store, has_id, patch_row, patch_if}
use birr_track_backend.Transactions.Laws.{IsStore}
use birr_track_backend.Transactions.Responses.{IsResponse, to_response-IsResponse}
use birr_track_backend.Transactions.Update.Edits.{edits, logs_of-edits}
use birr_track_backend.Transactions.Update.Described.{
  IsEmpty, IsEditedRow, get_update_fields-IsEmpty, get_update_fields-none, patch_row-IsEditedRow,
}
use birr_track_backend.Transactions.Update.{apply_update, update_fields, update_existing, update}
use birr_track_backend.Transactions.Update.Audit.{
  some_same, find_patched, Applied, apply_update_ok, id_of_found,
}

module _ {Num Time : Type 0} ⦃js : JsNumber Num⦄ ⦃dates : JsDate Time⦄ where
  -- A table and what an edit of the rows with an id makes of it: these rows, and no others.
  abbrev pub AreEdited :
      Text
      → UpdateTransactionDto Num
      → List (Transaction Num Time)
      → List (Transaction Num Time)
      → Type 0
  AreEdited id dto [] [] = Unit
  AreEdited id dto (x ∷ xs) (y ∷ ys) =
      (x.id ≡ id → IsEditedRow dto x y) × (x.id ≢ id → y ≡ x) × AreEdited id dto xs ys
  AreEdited id dto _ _ = ⊥

  map-patch_if-AreEdited :
      (id : Text) (dto : UpdateTransactionDto Num) (patch : Patch Num Time)
      (xs : List (Transaction Num Time))
      → prepare_update_payload dto ≡ ok patch
      → AreEdited id dto xs (map (patch_if id patch) xs)
  unfolding patch_if
  map-patch_if-AreEdited id dto patch [] prepared = tt
  map-patch_if-AreEdited id dto patch (x ∷ xs) prepared =
      let rest = map-patch_if-AreEdited id dto patch xs prepared in
      elim (Bool-cases (has_id id x)) [
        | inl here ↦ rw here (
          λ e. patch_row-IsEditedRow dto patch x prepared,
          λ other. absurd (other ((text_eq_iff x.id id).0 here)),
          rest,
        )
        | inr other ↦ rw other (λ e. absurd (cc ((text_eq_iff x.id id).1 e)), λ e. refl, rest)
      ]

module _ {S Num Time : Type 0} ⦃js : JsNumber Num⦄ ⦃dates : JsDate Time⦄ (store : Store S Num Time)
    {rows : S → List (Transaction Num Time)} {logs : S → List EditLog}
    (laws : IsStore store rows logs) where
  -- What an update of transaction `id` that returned has done: nothing, if the request gave no field;
  -- else the row is edited and read back, and each column that differs is logged.
  pub data Updated (id : Text) (dto : UpdateTransactionDto Num) (edited_by : Text) (s s' : S)
      (response : TransactionResponse Num Time) : Type 0 where
    untouched :
        (existing : Transaction Num Time)
        → find_first (has_id id) (rows s) ≡ some existing
        → IsEmpty dto
        → s' ≡ s
        → IsResponse existing response
        → Updated id dto edited_by s s' response
    written :
        (existing after : Transaction Num Time)
        → find_first (has_id id) (rows s) ≡ some existing
        → ¬ IsEmpty dto
        → IsEditedRow dto existing after
        → find_first (has_id id) (rows s') ≡ some after
        → AreEdited id dto (rows s) (rows s')
        → logs s' ≡ logs s ++ edits existing dto edited_by
        → IsResponse after response
        → Updated id dto edited_by s s' response

  Applied-Updated :
      (id : Text) (existing t : Transaction Num Time) (dto : UpdateTransactionDto Num)
      (edited_by : Text) (s s' : S)
      → find_first (has_id id) (rows s) ≡ some existing
      → get_update_fields dto ≢ []
      → Applied store laws existing dto edited_by s s' t
      → Updated id dto edited_by s s' (to_response t)
  Applied-Updated id existing t dto edited_by s s' found some_field a =
      let same = id_of_found store laws id s existing found in
      let rows_after : rows s' ≡ map (patch_if id a.patch) (rows s) =
        subst (λ i. rows s' ≡ map (patch_if i a.patch) (rows s)) same a.rows_after in
      let back : find_first (has_id id) (rows s') ≡ some t =
        subst (λ i. find_first (has_id i) (rows s') ≡ some t) same a.returned in
      let row_is : some t ≡ some (patch_row a.patch existing) =
        sym back
        ∙ (ap (find_first (has_id id)) rows_after
            ∙ find_patched id a.patch (rows s) existing found) in
      written existing t found (λ none_given. some_field (get_update_fields-none dto none_given))
        (subst (IsEditedRow dto existing) (sym (some_same row_is))
          (patch_row-IsEditedRow dto a.patch existing a.prepared))
        back
        (subst (AreEdited id dto (rows s)) (sym rows_after)
          (map-patch_if-AreEdited id dto a.patch (rows s) a.prepared))
        (a.logs_after ∙ ap (λ l. logs s ++ l) (logs_of-edits existing dto edited_by))
        (to_response-IsResponse t)

  update_fields_ok :
      (id : Text) (existing : Transaction Num Time) (dto : UpdateTransactionDto Num)
      (edited_by : Text) (fields : List EditableField) (s s' : S) (r : TransactionResponse Num Time)
      → find_first (has_id id) (rows s) ≡ some existing
      → get_update_fields dto ≡ fields
      → update_fields store id existing dto edited_by fields s ≡ (ok r, s')
      → Updated id dto edited_by s s' r
  update_fields_ok id existing dto edited_by [] s s' r found none_given e =
      let (r_is, s_is) = ok_pair e in
      untouched existing found (get_update_fields-IsEmpty dto none_given) (sym s_is)
        (subst (IsResponse existing) r_is (to_response-IsResponse existing))
  update_fields_ok id existing dto edited_by (f ∷ fs) s s' r found some_given e =
      elim (Call-cases (store.in_transaction (apply_update store id existing dto edited_by) s)) [
        | inr (m, s1, failed) ↦ absurd (err-ne-ok (rw failed at e))
        | inl (t, s1, done) ↦
            let inside =
              laws.in_transaction_ok (apply_update store id existing dto edited_by) s s1 t done in
            let applied = apply_update_ok store laws id existing dto edited_by s s1 t inside in
            let (r_is, s_is) = ok_pair (rw done at e) in
            let given : get_update_fields dto ≢ [] = λ n. cc in
            subst (λ z. Updated id dto edited_by s s' z) r_is
              (subst (λ z. Updated id dto edited_by s z (to_response t)) s_is
                (Applied-Updated id existing t dto edited_by s s1 found given applied))
      ]

  update_existing_ok :
      (id : Text) (dto : UpdateTransactionDto Num) (edited_by : Text)
      (o : Option (Transaction Num Time)) (s s' : S) (r : TransactionResponse Num Time)
      → find_first (has_id id) (rows s) ≡ o
      → update_existing store id dto edited_by o s ≡ (ok r, s')
      → Updated id dto edited_by s s' r
  update_existing_ok id dto edited_by none s s' r found e = absurd (err-ne-ok e)
  update_existing_ok id dto edited_by (some existing) s s' r found e =
      update_fields_ok id existing dto edited_by (get_update_fields dto) s s' r found refl e

  update_fields_err :
      (id : Text) (existing : Transaction Num Time) (dto : UpdateTransactionDto Num)
      (edited_by : Text) (fields : List EditableField) (s s' : S) (e : Text)
      → update_fields store id existing dto edited_by fields s ≡ (err e, s')
      → s' ≡ s
  update_fields_err id existing dto edited_by [] s s' e h = absurd (ok-ne-err h)
  update_fields_err id existing dto edited_by (f ∷ fs) s s' e h =
      elim (Call-cases (store.in_transaction (apply_update store id existing dto edited_by) s)) [
        | inl (t, s1, done) ↦ absurd (ok-ne-err (rw done at h))
        | inr (m, s1, failed) ↦
            laws.in_transaction_err (apply_update store id existing dto edited_by) s s' m
              (failed ∙ ap (λ z. (err m, z)) (err_pair (rw failed at h)).1)
      ]

  -- An update that returns has found the transaction. It changes nothing if the request gives no
  -- field. Otherwise the row, and no other, takes the columns of the request: the amount with two
  -- places, the date of the timestamp, and the others as they are given; columns that are left out and
  -- all other columns stay. The response is that row, with the amount as a number. The edit log grows by
  -- exactly the given columns whose text differs from the stored one, by name, with their old and new
  -- text and the editor.
  pub update_ok :
      (id : Text) (dto : UpdateTransactionDto Num) (edited_by : Text) (s s' : S)
      (r : TransactionResponse Num Time)
      → update store id dto edited_by s ≡ (ok r, s')
      → Updated id dto edited_by s s' r
  unfolding update
  update_ok id dto edited_by s s' r e = elim (Call-cases (store.find_by_id id s)) [
    | inr (m, s1, failed) ↦ absurd (err-ne-ok (rw failed at e))
    | inl (o, s1, read) ↦
        let (same, o_is) = laws.find_by_id_ok id s s1 o read in
        update_existing_ok id dto edited_by o s s' r (sym o_is)
          (subst (λ z. update_existing store id dto edited_by o z ≡ (ok r, s')) same (rw read at e))
  ]

  update_existing_err :
      (id : Text) (dto : UpdateTransactionDto Num) (edited_by : Text)
      (o : Option (Transaction Num Time)) (s s' : S) (e : Text)
      → update_existing store id dto edited_by o s ≡ (err e, s')
      → s' ≡ s
  update_existing_err id dto edited_by none s s' e h = sym (err_pair h).1
  update_existing_err id dto edited_by (some existing) s s' e h =
      update_fields_err id existing dto edited_by (get_update_fields dto) s s' e h

  -- An update that throws, at whichever step, leaves the tables as they were: no log is kept of a
  -- change that was not made.
  pub update_err :
      (id : Text) (dto : UpdateTransactionDto Num) (edited_by : Text) (s s' : S) (e : Text)
      → update store id dto edited_by s ≡ (err e, s')
      → s' ≡ s
  unfolding update
  update_err id dto edited_by s s' e h = elim (Call-cases (store.find_by_id id s)) [
    | inr (m, s1, failed) ↦
        laws.find_by_id_err id s s' m (failed ∙ ap (λ z. (err m, z)) (err_pair (rw failed at h)).1)
    | inl (o, s1, read) ↦
        let (same, _) = laws.find_by_id_ok id s s1 o read in
        update_existing_err id dto edited_by o s1 s' e (rw read at h) ∙ same
  ]
