-- ===== src/Database/Created.antt =====
-- What `up` leaves, beside the tables that were there.
use birr_track_backend.Base.{◌≡◌, refl, false, none, List, [], ◌∷◌, ◌++◌, Text, text_eq, sym, ◌∙◌}
use mathlib.Core.List.{append-nil}
use birr_track_backend.Database.{Table, QueryRunner}
use birr_track_backend.Database.Tables.{
  businesses_name, managers_name, transactions_name, edit_logs_name, businesses_table,
  managers_table, transactions_table, edit_logs_table, manager_index, duplicate_index, user_index,
  created_index, edit_log_index, business_key, transaction_key,
}
use birr_track_backend.Database.Migration.{up}
use birr_track_backend.Database.Schema.{
  find_table, change, has_columns, has_index, is_referenced, Does, IsQueryRunner,
}
use birr_track_backend.Database.Calls.{
  Does-continue, create_table_does, create_index_does, create_foreign_key_does,
}

-- No table has the name, and none refers to it.
pub record IsUnused (name : Text) (xs : List Table) : Type 0 where
  pub absent : find_table name xs ≡ none
  pub unreferenced : is_referenced name xs ≡ false

-- Tables that the migration has nothing to do with.
pub record IsFree (xs : List Table) : Type 0 where
  pub businesses : IsUnused businesses_name xs
  pub managers : IsUnused managers_name xs
  pub transactions : IsUnused transactions_name xs
  pub edit_logs : IsUnused edit_logs_name xs
  pub on_managers : has_index manager_index.name xs ≡ false
  pub on_duplicates : has_index duplicate_index.name xs ≡ false
  pub on_users : has_index user_index.name xs ≡ false
  pub on_created : has_index created_index.name xs ≡ false
  pub on_edit_logs : has_index edit_log_index.name xs ≡ false

abbrev pub managers_created : Table
managers_created = record managers_table {
  indices = manager_index ∷ [];
  foreign_keys = business_key ∷ [];
}

abbrev pub transactions_created : Table
transactions_created = record transactions_table {
  indices = duplicate_index ∷ user_index ∷ created_index ∷ [];
}

abbrev pub edit_logs_created : Table
edit_logs_created = record edit_logs_table {
  indices = edit_log_index ∷ [];
  foreign_keys = transaction_key ∷ [];
}

abbrev pub created : List Table
created = businesses_table ∷ managers_created ∷ transactions_created ∷ edit_logs_created ∷ []

module _ {S : Type 0} (schema : S → List Table) (runner : QueryRunner S)
    (laws : IsQueryRunner schema runner) where
  -- Where the names of its tables and indices are free, `up` returns, and leaves the tables that
  -- were there and, behind them, its four tables with their indices and foreign keys.
  pub up_creates : (s : S) → IsFree (schema s) → Does schema (up runner s) tt (schema s ++ created)
  unfolding up find_table change has_columns has_index businesses_table managers_table
      transactions_table edit_logs_table text_eq
  up_creates s free =
      let xs = schema s in
      let b = businesses_table in
      let t = transactions_table in
      let t1 : Table = record t { indices = duplicate_index ∷ [] } in
      let t2 : Table = record t { indices = duplicate_index ∷ user_index ∷ [] } in
      let m1 : Table = record managers_table { indices = manager_index ∷ [] } in
      let e1 : Table = record edit_logs_table { indices = edit_log_index ∷ [] } in
      let pre = b ∷ managers_created ∷ [] in
      let full = pre ++ transactions_created ∷ [] in
      Does-continue schema _ (laws.extension_ok s) λ s0 at0.
        Does-continue schema _
          (create_table_does schema runner laws xs [] s0 (at0 ∙ sym (append-nil xs)) b
            free.businesses.absent refl)
          λ s1 at1.
            Does-continue schema _
              (create_table_does schema runner laws xs (b ∷ []) s1 at1 managers_table
                free.managers.absent refl)
              λ s2 at2.
                Does-continue schema _
                  (create_index_does schema runner laws xs (b ∷ managers_table ∷ []) s2 at2
                    managers_name manager_index managers_table free.managers.absent refl refl
                    free.on_managers refl)
                  λ s3 at3.
                    Does-continue schema _
                      (create_foreign_key_does schema runner laws xs (b ∷ m1 ∷ []) s3 at3
                        managers_name business_key m1 b free.managers.absent refl refl
                        free.businesses.absent refl refl)
                      λ s4 at4.
                        Does-continue schema _
                          (create_table_does schema runner laws xs pre s4 at4 t
                            free.transactions.absent refl)
                          λ s5 at5.
                            Does-continue schema _
                              (create_index_does schema runner laws xs (pre ++ t ∷ []) s5 at5
                                transactions_name duplicate_index t free.transactions.absent refl
                                refl free.on_duplicates refl)
                              λ s6 at6.
                                Does-continue schema _
                                  (create_index_does schema runner laws xs (pre ++ t1 ∷ []) s6 at6
                                    transactions_name user_index t1 free.transactions.absent refl
                                    refl free.on_users refl)
                                  λ s7 at7.
                                    Does-continue schema _
                                      (create_index_does schema runner laws xs (pre ++ t2 ∷ []) s7
                                        at7 transactions_name created_index t2
                                        free.transactions.absent refl refl free.on_created refl)
                                      λ s8 at8.
                                        Does-continue schema _
                                          (create_table_does schema runner laws xs full s8 at8
                                            edit_logs_table free.edit_logs.absent refl)
                                          λ s9 at9.
                                            Does-continue schema _
                                              (create_index_does schema runner laws xs
                                                (full ++ edit_logs_table ∷ []) s9 at9 edit_logs_name
                                                edit_log_index edit_logs_table free.edit_logs.absent
                                                refl refl free.on_edit_logs refl)
                                              λ s10 at10.
                                                create_foreign_key_does schema runner laws xs
                                                  (full ++ e1 ∷ []) s10 at10 edit_logs_name
                                                  transaction_key e1 transactions_created
                                                  free.edit_logs.absent refl refl
                                                  free.transactions.absent refl refl
