-- ===== src/Database/Calls.antt =====
-- The calls of a `QueryRunner` on tables of which some, in front, have nothing to do with them.
use mathlib.Core.List.{append_assoc}
use birr_track_backend.Base.{
  ◌≡◌, refl, sym, ap, ◌∙◌, true, false, Option, none, some, List, [], ◌∷◌, ◌++◌, Text, arith,
}
use birr_track_backend.Base.Results.{Result}
use birr_track_backend.Base.Effects.{M, continue}
use birr_track_backend.Database.{TableIndex, TableForeignKey, Table, QueryRunner}
use birr_track_backend.Database.Schema.{
  find_table, change, remove, has_columns, has_index, is_referenced, add_index, add_key,
  without_key, Does, IsQueryRunner,
}

find_table-append :
    (name : Text) (xs ys : List Table)
    → find_table name xs ≡ none
    → find_table name (xs ++ ys) ≡ find_table name ys
unfolding find_table
find_table-append name [] ys h = refl
find_table-append name (x ∷ xs) ys h = ground (arith, find_table-append name xs ys)

change-append :
    (name : Text) (f : Table → Table) (xs ys : List Table)
    → find_table name xs ≡ none
    → change name f (xs ++ ys) ≡ xs ++ change name f ys
unfolding find_table change
change-append name f [] ys h = refl
change-append name f (x ∷ xs) ys h = ground (arith, change-append name f xs ys)

remove-append :
    (name : Text) (xs ys : List Table)
    → find_table name xs ≡ none
    → remove name (xs ++ ys) ≡ xs ++ remove name ys
unfolding find_table remove
remove-append name [] ys h = refl
remove-append name (x ∷ xs) ys h = ground (arith, remove-append name xs ys)

is_referenced-append :
    (name : Text) (xs ys : List Table)
    → is_referenced name xs ≡ false
    → is_referenced name (xs ++ ys) ≡ is_referenced name ys
unfolding is_referenced
is_referenced-append name [] ys h = refl
is_referenced-append name (x ∷ xs) ys h = ground (arith, is_referenced-append name xs ys)

has_index-append :
    (name : Text) (xs ys : List Table)
    → has_index name xs ≡ false
    → has_index name (xs ++ ys) ≡ has_index name ys
unfolding has_index
has_index-append name [] ys h = refl
has_index-append name (x ∷ xs) ys h = ground (arith, has_index-append name xs ys)

-- A call after one that returns.
pub Does-continue :
    {S A B : Type 0} (schema : S → List Table) {call : Result A × S} (k : A → M S B) {a : A} {b : B}
    {ts us : List Table}
    → Does schema call a ts
    → ((s : S) → schema s ≡ ts → Does schema (k a s) b us)
    → Does schema (continue call k) b us
Does-continue schema k (s, done, at) next = rw done (next s at)

module _ {S : Type 0} (schema : S → List Table) (runner : QueryRunner S)
    (laws : IsQueryRunner schema runner) (xs ts : List Table) (s : S)
    (at : schema s ≡ xs ++ ts) where
  -- A call does what the law says of it, and the tables in front stay.
  after :
      {A : Type 0} {call : Result A × S} {a : A} {now : List Table} (us : List Table)
      → Does schema call a now
      → now ≡ xs ++ us
      → Does schema call a (xs ++ us)
  after us (s', done, then_at) same = (s', done, then_at ∙ same)

  pub found :
      (name : Text) {o : Option Table}
      → find_table name xs ≡ none
      → find_table name ts ≡ o
      → find_table name (schema s) ≡ o
  found name absent there = ap (find_table name) at ∙ (find_table-append name xs ts absent ∙ there)

  pub create_table_does :
      (t : Table)
      → find_table t.name xs ≡ none
      → find_table t.name ts ≡ none
      → Does schema (runner.create_table t s) tt (xs ++ (ts ++ t ∷ []))
  create_table_does t absent new =
      after (ts ++ t ∷ []) (laws.create_table_ok t s (found t.name absent new))
        (ap (λ z. z ++ t ∷ []) at ∙ append_assoc xs ts (t ∷ []))

  pub create_index_does :
      (name : Text) (index : TableIndex) (t : Table)
      → find_table name xs ≡ none
      → find_table name ts ≡ some t
      → has_columns t index.column_names ≡ true
      → has_index index.name xs ≡ false
      → has_index index.name ts ≡ false
      → Does schema (runner.create_index name index s) tt (xs ++ change name (add_index index) ts)
  create_index_does name index t absent there columns unused new =
      after (change name (add_index index) ts)
        (laws.create_index_ok name index s t (found name absent there) columns
          (ap (has_index index.name) at ∙ (has_index-append index.name xs ts unused ∙ new)))
        (ap (change name (add_index index)) at ∙ change-append name (add_index index) xs ts absent)

  pub create_foreign_key_does :
      (name : Text) (key : TableForeignKey) (t referenced : Table)
      → find_table name xs ≡ none
      → find_table name ts ≡ some t
      → has_columns t key.column_names ≡ true
      → find_table key.referenced_table_name xs ≡ none
      → find_table key.referenced_table_name ts ≡ some referenced
      → has_columns referenced key.referenced_column_names ≡ true
      → Does schema (runner.create_foreign_key name key s) tt (xs ++ change name (add_key key) ts)
  create_foreign_key_does name key t referenced absent there columns absent' there' columns' =
      after (change name (add_key key) ts)
        (laws.create_foreign_key_ok name key s t referenced (found name absent there) columns
          (found key.referenced_table_name absent' there') columns')
        (ap (change name (add_key key)) at ∙ change-append name (add_key key) xs ts absent)

  pub get_table_does :
      (name : Text) {o : Option Table}
      → find_table name xs ≡ none
      → find_table name ts ≡ o
      → Does schema (runner.get_table name s) o (xs ++ ts)
  get_table_does name absent there =
      let (s', done, same) = laws.get_table_ok name s in
      (s', rw (sym (found name absent there)) done, same ∙ at)

  pub drop_foreign_key_does :
      (name : Text) (key : TableForeignKey) (t : Table)
      → find_table name xs ≡ none
      → find_table name ts ≡ some t
      → Does schema (runner.drop_foreign_key name key s) tt (xs ++ change name (without_key key) ts)
  drop_foreign_key_does name key t absent there =
      after (change name (without_key key) ts)
        (laws.drop_foreign_key_ok name key s t (found name absent there))
        (ap (change name (without_key key)) at ∙ change-append name (without_key key) xs ts absent)

  pub drop_table_does :
      (name : Text) (t : Table)
      → find_table name xs ≡ none
      → find_table name ts ≡ some t
      → is_referenced name xs ≡ false
      → is_referenced name ts ≡ false
      → Does schema (runner.drop_table name s) tt (xs ++ remove name ts)
  drop_table_does name t absent there unreferenced free =
      after (remove name ts)
        (laws.drop_table_ok name s t (found name absent there)
          (ap (is_referenced name) at ∙ (is_referenced-append name xs ts unreferenced ∙ free)))
        (ap (remove name) at ∙ remove-append name xs ts absent)
