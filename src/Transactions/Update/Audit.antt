-- ===== src/Transactions/Update/Audit.antt =====
-- The steps of an update inside its database transaction: the logs, the write and the read.
use mathlib.Core.List.{append-nil, append_assoc}
use birr_track_backend.Base.{
  ◌≡◌, inl, inr, sym, ap, ◌∙◌, Bool, not, Option, none, some, List, [], ◌∷◌, ◌++◌, arith, map, Text,
  text_eq_iff, keep, find_first, find_first_sound, Bool-cases,
}
use birr_track_backend.Base.Results.{ok, Result-cases}
use birr_track_backend.Base.Effects.{continue, ◌>>=◌, Call-cases, ok_pair, err-ne-ok}
use birr_track_backend.Js.Numbers.{JsNumber}
use birr_track_backend.Js.Dates.{JsDate}
use birr_track_backend.Transactions.Entities.{Transaction, EditLog}
use birr_track_backend.Transactions.Dto.{UpdateTransactionDto}
use birr_track_backend.Transactions.Fields.{
  EditableField, Patch, get_update_fields, read_dto_field, read_row_field, prepare_update_payload,
}
use birr_track_backend.Transactions.Store.{Store, has_id, patch_row, patch_if}
use birr_track_backend.Transactions.Laws.{IsStore}
use birr_track_backend.Transactions.Update.{
  same_value, log_of, log_changes, saved_or_throw, apply_update,
}

pub some_same {ℓ} : {A : Type ℓ} {a b : A} → some a ≡ some b → a ≡ b
some_same e = cc

module _ {Num Time : Type 0} where
  patch_if-has_id :
      (id j : Text) (p : Patch Num Time) (r : Transaction Num Time)
      → has_id j (patch_if id p r) ≡ has_id j r
  unfolding patch_if patch_row
  patch_if-has_id id j p r = elim (Bool-cases (has_id id r)) [ inl e ↦ rw e | inr e ↦ rw e ]

  -- The first row with an id, after the update of the rows with that id.
  pub find_patched :
      (id : Text) (p : Patch Num Time) (rows : List (Transaction Num Time))
      (r : Transaction Num Time)
      → find_first (has_id id) rows ≡ some r
      → find_first (has_id id) (map (patch_if id p) rows) ≡ some (patch_row p r)
  find_patched id p [] r e = absurd (cc)
  find_patched id p (x ∷ xs) r e = elim (Bool-cases (has_id id x)) [
    | inl here ↦
        let same : x ≡ r = ground arith in
        rw (patch_if-has_id id id p x, here)
          (unfold patch_if in rw here (ap (λ y. some (patch_row p y)) same))
    | inr later ↦ rw (patch_if-has_id id id p x, later) (find_patched id p xs r (rw later at e))
  ]

module _ {Num Time : Type 0} ⦃js : JsNumber Num⦄ ⦃dates : JsDate Time⦄ where
  -- The fields of a request whose text differs from the stored one.
  abbrev pub is_changed : Transaction Num Time → UpdateTransactionDto Num → EditableField → Bool
  is_changed existing dto field =
      not (same_value (read_row_field existing field) (read_dto_field dto field))

  -- One log for each changed field, in the order of the fields.
  abbrev pub logs_of :
      Transaction Num Time → UpdateTransactionDto Num → Text → List EditableField → List EditLog
  logs_of existing dto edited_by fields =
      map (log_of existing dto edited_by) (keep (is_changed existing dto) fields)

module _ {S Num Time : Type 0} ⦃js : JsNumber Num⦄ ⦃dates : JsDate Time⦄ (store : Store S Num Time)
    {rows : S → List (Transaction Num Time)} {logs : S → List EditLog}
    (laws : IsStore store rows logs) where
  log_changes_ok :
      (existing : Transaction Num Time) (dto : UpdateTransactionDto Num) (edited_by : Text)
      (fields : List EditableField) (s s' : S) (u : Unit {0})
      → log_changes store existing dto edited_by fields s ≡ (ok u, s')
      → (rows s' ≡ rows s) × (logs s' ≡ logs s ++ logs_of existing dto edited_by fields)
  unfolding log_changes
  log_changes_ok existing dto edited_by [] s s' u e =
      let (_, same) = ok_pair e in
      (ap rows (sym same), ap logs (sym same) ∙ sym (append-nil (logs s)))
  log_changes_ok existing dto edited_by (f ∷ fs) s s' u e =
      elim (Bool-cases (same_value (read_row_field existing f) (read_dto_field dto f))) [
        | inl same ↦ rw same (log_changes_ok existing dto edited_by fs s s' u (rw same at e))
        | inr differs ↦ elim (Call-cases (store.save_log (log_of existing dto edited_by f) s)) [
          | inl (v, t, saved) ↦
              let (rows_t, logs_t) =
                laws.save_log_ok (log_of existing dto edited_by f) s t v saved in
              let (rows_s', logs_s') =
                log_changes_ok existing dto edited_by fs t s' u (rw (differs, saved) at e) in
              (
                rows_s' ∙ rows_t,
                rw differs (
                    logs_s'
                    ∙ (ap (λ l. l ++ logs_of existing dto edited_by fs) logs_t
                        ∙ append_assoc (logs s) (log_of existing dto edited_by f ∷ []) _)),
              )
          | inr (m, t, failed) ↦ absurd (err-ne-ok (rw (differs, failed) at e))
        ]
      ]

  -- What a committed update of `existing` has done.
  pub record Applied (existing : Transaction Num Time) (dto : UpdateTransactionDto Num)
      (edited_by : Text) (s s' : S) (t : Transaction Num Time) : Type 0 where
    pub patch : Patch Num Time
    pub prepared : prepare_update_payload dto ≡ ok patch
    pub rows_after : rows s' ≡ map (patch_if existing.id patch) (rows s)
    pub logs_after : logs s' ≡ logs s ++ logs_of existing dto edited_by (get_update_fields dto)
    pub returned : find_first (has_id existing.id) (rows s') ≡ some t

  saved_or_throw_ok :
      (id : Text) (o : Option (Transaction Num Time)) (s s' : S) (t : Transaction Num Time)
      → saved_or_throw store id o s ≡ (ok t, s')
      → (o ≡ some t) × (s ≡ s')
  saved_or_throw_ok id none s s' t e = absurd (err-ne-ok e)
  saved_or_throw_ok id (some r) s s' t e = let (a, b) = ok_pair e in (ap some a, b)

  -- The `UPDATE`, and the row that is read back.
  write_ok :
      (id : Text) (existing : Transaction Num Time) (patch : Patch Num Time) (s s' : S)
      (t : Transaction Num Time)
      → continue
          (store.update existing.id patch s)
          (λ _. store.find_by_id existing.id >>= saved_or_throw store id)
        ≡ (ok t, s')
      → (rows s' ≡ map (patch_if existing.id patch) (rows s))
        × (logs s' ≡ logs s)
        × (find_first (has_id existing.id) (rows s') ≡ some t)
  write_ok id existing patch s s' t e = elim (Call-cases (store.update existing.id patch s)) [
    | inr (m, s1, failed) ↦ absurd (err-ne-ok (rw failed at e))
    | inl (u, s1, done) ↦ elim (Call-cases (store.find_by_id existing.id s1)) [
      | inr (m, s2, failed) ↦ absurd (err-ne-ok (rw (done, failed) at e))
      | inl (o, s2, read) ↦
          let (rows_s1, logs_s1) = laws.update_ok existing.id patch s s1 u done in
          let (same, o_is) = laws.find_by_id_ok existing.id s1 s2 o read in
          let (o_some, s2_is) = saved_or_throw_ok id o s2 s' t (rw (done, read) at e) in
          let s'_is : s' ≡ s1 = sym s2_is ∙ same in rw s'_is (rows_s1, logs_s1, sym o_is ∙ o_some)
    ]
  ]

  pub apply_update_ok :
      (id : Text) (existing : Transaction Num Time) (dto : UpdateTransactionDto Num)
      (edited_by : Text) (s s' : S) (t : Transaction Num Time)
      → apply_update store id existing dto edited_by s ≡ (ok t, s')
      → Applied existing dto edited_by s s' t
  unfolding apply_update
  apply_update_ok id existing dto edited_by s s' t e =
      elim (Call-cases (log_changes store existing dto edited_by (get_update_fields dto) s)) [
        | inr (m, s1, failed) ↦ absurd (err-ne-ok (rw failed at e))
        | inl (u, s1, logged) ↦ elim (Result-cases (prepare_update_payload {Time = Time} dto)) [
          | inr (m, failed) ↦ absurd (err-ne-ok (rw (logged, failed) at e))
          | inl (patch, prepared) ↦
              let (rows_s1, logs_s1) =
                log_changes_ok existing dto edited_by (get_update_fields dto) s s1 u logged in
              let (rows_s', logs_s', back) =
                write_ok id existing patch s1 s' t (rw (logged, prepared) at e) in
              record {
                patch = patch;
                prepared = prepared;
                rows_after = rows_s' ∙ ap (map (patch_if existing.id patch)) rows_s1;
                logs_after = logs_s' ∙ logs_s1;
                returned = back;
              }
        ]
      ]

  pub id_of_found :
      (id : Text) (s : S) (r : Transaction Num Time)
      → find_first (has_id id) (rows s) ≡ some r
      → r.id ≡ id
  id_of_found id s r e =
      let first = find_first_sound (has_id id) (rows s) r e in (text_eq_iff r.id id).0 first.passes
