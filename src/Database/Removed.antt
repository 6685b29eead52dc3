-- ===== src/Database/Removed.antt =====
-- That `down` takes back what `up` did.
use mathlib.Core.List.{append-nil}
use birr_track_backend.Base.{◌≡◌, refl, ◌∙◌, none, some, Text, List, [], ◌∷◌, ◌++◌, codes, text_eq}
use birr_track_backend.Base.Effects.{◌>>◌}
use birr_track_backend.Database.{TableForeignKey, Table, QueryRunner}
use birr_track_backend.Database.Tables.{
  businesses_name, managers_name, transactions_name, edit_logs_name, businesses_table,
  managers_table, transactions_table, edit_logs_table, business_key, transaction_key,
}
use birr_track_backend.Database.Migration.{includes_name, key_on, drop_key, drop_key_on, up, down}
use birr_track_backend.Database.Schema.{
  find_table, change, remove, is_referenced, same_names, without_key, Does, IsQueryRunner,
}
use birr_track_backend.Database.Calls.{
  Does-continue, get_table_does, drop_foreign_key_does, drop_table_does,
}
use birr_track_backend.Database.Created.{
  IsFree, managers_created, transactions_created, edit_logs_created, created, up_creates,
}

module _ {S : Type 0} (schema : S → List Table) (runner : QueryRunner S)
    (laws : IsQueryRunner schema runner) where
  drop_key_on_does :
      (xs ts : List Table) (s : S) (name column : Text) (key : TableForeignKey) (t : Table)
      → schema s ≡ xs ++ ts
      → find_table name xs ≡ none
      → find_table name ts ≡ some t
      → key_on column (some t) ≡ some key
      → Does schema (drop_key_on runner name column s) tt (xs ++ change name (without_key key) ts)
  drop_key_on_does xs ts s name column key t at absent there has_key =
      Does-continue schema (λ found. drop_key runner name (key_on column found))
        (get_table_does schema runner laws xs ts s at name absent there)
        λ s1 at1.
          rw has_key (drop_foreign_key_does schema runner laws xs ts s1 at1 name key t absent there)

  down_removes :
      (xs : List Table) (s : S)
      → IsFree xs
      → schema s ≡ xs ++ created
      → Does schema (down runner s) tt xs
  unfolding down find_table change remove is_referenced same_names without_key includes_name
      businesses_table managers_table transactions_table edit_logs_table text_eq
  down_removes xs s free at =
      let b = businesses_table in
      let t = transactions_created in
      let m = managers_created in
      let m1 : Table = record m { foreign_keys = [] } in
      let e = edit_logs_created in
      let e1 : Table = record e { foreign_keys = [] } in
      let pre = b ∷ m ∷ [] in
      Does-continue schema _
        (drop_key_on_does xs created s edit_logs_name (codes "transactionId") transaction_key e at
          free.edit_logs.absent refl refl)
        λ s1 at1.
          Does-continue schema _
            (drop_table_does schema runner laws xs (b ∷ m ∷ t ∷ e1 ∷ []) s1 at1 edit_logs_name e1
              free.edit_logs.absent refl free.edit_logs.unreferenced refl)
            λ s2 at2.
              Does-continue schema _
                (drop_table_does schema runner laws xs (b ∷ m ∷ t ∷ []) s2 at2 transactions_name t
                  free.transactions.absent refl free.transactions.unreferenced refl)
                λ s3 at3.
                  Does-continue schema _
                    (drop_key_on_does xs pre s3 managers_name (codes "businessId") business_key m
                      at3 free.managers.absent refl refl)
                    λ s4 at4.
                      Does-continue schema _
                        (drop_table_does schema runner laws xs (b ∷ m1 ∷ []) s4 at4 managers_name m1
                          free.managers.absent refl free.managers.unreferenced refl)
                        λ s5 at5.
                          let (s6, done, at6) =
                            drop_table_does schema runner laws xs (b ∷ []) s5 at5 businesses_name b
                              free.businesses.absent refl free.businesses.unreferenced refl in
                          (s6, done, at6 ∙ append-nil xs)

  -- Where the names of its tables and indices are free, and no other table refers to these names,
  -- `up` and then `down` return, and leave the tables that were there and no others.
  pub down-up :
      (s : S) → IsFree (schema s) → Does schema ((up runner >> down runner) s) tt (schema s)
  down-up s free =
      Does-continue schema _ (up_creates schema runner laws s free)
        λ s1 at1. down_removes (schema s) s1 free at1
