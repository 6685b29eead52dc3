-- ===== src/Tests/Database.antt =====
-- A database for the tests: two tables in memory. An id is the number of rows, and so is the clock.
use mathlib.Core.List.{Perm}
use mathlib.Core.List.Perm
use birr_track_backend.Base.{
  ℕ, zero, suc, codes, ◌≡◌, refl, sym, ap, subst, Bool, true, false, Option, none, some, List, [],
  ◌∷◌, ◌++◌, map, arith, Text, leb, ◌==◌, keep, find_first, find_first-none, length, All,
}
use birr_track_backend.Base.Sorting.{
  sort_by, sort_by-perm, IsOrdered, sort_by-IsOrdered, IsPreorder,
}
use birr_track_backend.Base.Sums.{sum_by}
use birr_track_backend.Base.Results.{Result, ok, err}
use birr_track_backend.Base.Effects.{M, ok_pair, err_pair, ok-ne-err, err-ne-ok}
use birr_track_backend.Js.Numbers.{decimal, parse_int}
use birr_track_backend.Js.Dates.{JsDate}
use birr_track_backend.Tests.Decimal.{read_decimal, print_fixed}
use birr_track_backend.Transactions.Entities.{Transaction, NewTransaction, EditLog}
use birr_track_backend.Transactions.Store.{
  Order, by_created_at, asc, desc, Query, patch_if, has_id, matches, inserted, has_key, Store,
}
use birr_track_backend.Transactions.Laws.{
  IsNewestFirst, IsOldestFirst, IsOrderedBy, IsResult, IsStore, aggregate, page_of,
}

-- A date is a number, written in digits.
abbrev date_of_digits : Text → Option ℕ
date_of_digits [] = none
date_of_digits (c ∷ s) = some (parse_int (c ∷ s))

pub not_over : (n : ℕ) → leb n n ≡ true
not_over n = ground arith

pub same_number : (n : ℕ) → (n == n) ≡ true
same_number n = ground arith

-- In digits, but for the epoch.
abbrev day_text : ℕ → Text
day_text zero = codes "1970-01-01T00:00:00.000Z"
day_text (suc n) = decimal (suc n)

instance abbrev pub day_numbers : JsDate ℕ
day_numbers = record {
  date_of = date_of_digits;
  epoch = 0;
  iso_of = day_text;
  epoch_iso = refl;
  le = leb;
  same = λ a b. a == b;
  le_refl = not_over;
  same_refl = same_number;
}

abbrev pub Row : Type 0
Row = Transaction ℕ ℕ

pub record Db : Type 0 where
  pub rows : List Row
  pub logs : List EditLog

abbrev pub rows_of : Db → List Row
rows_of db = db.rows

abbrev pub logs_of_db : Db → List EditLog
logs_of_db db = db.logs

-- Newest first.
abbrev newer : Row → Row → Bool
newer x y = leb y.created_at x.created_at

abbrev older : Row → Row → Bool
older x y = leb x.created_at y.created_at

unfoldable pub arranged : Option Order → List Row → List Row
unfolding sort_by
arranged none xs = xs
arranged (some (by_created_at asc)) xs = sort_by older xs
arranged (some (by_created_at desc)) xs = sort_by newer xs

abbrev found_rows : Query ℕ → Db → List Row
found_rows q db = arranged q.order_by (keep (matches q.where_all) db.rows)

abbrev next_id : Db → Text
next_id db = decimal (length db.rows)

abbrev insert_at : NewTransaction ℕ ℕ → ℕ → Option Row → M Db Row
insert_at n t (some taken) db = (err (b'd' ∷ []), db)
insert_at n t none db =
    let row = inserted n (next_id db) t (length db.rows) in
    (ok row, record db { rows = db.rows ++ row ∷ [] })

abbrev insert_dated : NewTransaction ℕ ℕ → Option ℕ → M Db Row
insert_dated n none db = (err (b'i' ∷ []), db)
insert_dated n (some t) db = insert_at n t (find_first (has_id (next_id db)) db.rows) db

abbrev keyed : Text → Text → Option ℕ → M Db (Option Row)
keyed transaction_id amount none db = (err (b'i' ∷ []), db)
keyed transaction_id amount (some t) db =
    (ok (find_first (has_key transaction_id amount t) db.rows), db)

abbrev commit : Db → Result Row × Db → Result Row × Db
commit before (ok t, after) = (ok t, after)
commit before (err e, after) = (err e, before)

-- `COALESCE(SUM(amount), 0)` of amounts with two places.
abbrev pub sum_text : ℕ → Text
sum_text zero = codes "0"
sum_text (suc n) = print_fixed (suc n)

abbrev pub sum_of : List Text → Text
sum_of amounts = sum_text (sum_by read_decimal amounts)

abbrev pub memory : Store Db ℕ ℕ
memory = record {
  save_transaction = λ n. insert_dated n n.timestamp;
  find_by_id = λ id db. (ok (find_first (has_id id) db.rows), db);
  find_by_key = keyed;
  save_log = λ l db. (ok tt, record db { logs = db.logs ++ l ∷ [] });
  update = λ id p db. (ok tt, record db { rows = map (patch_if id p) db.rows });
  in_transaction = λ m db. commit db (m db);
  get_many = λ q db. (ok (page_of q (found_rows q db)), db);
  get_many_and_count =
      λ q db. (ok (page_of q (found_rows q db), length (keep (matches q.where_all) db.rows)), db);
  get_raw_one = λ cs columns db.
      (ok (some (map (λ c. (c.1, aggregate sum_of c.0 (keep (matches cs) db.rows))) columns)), db);
}

newer_order : IsPreorder newer
newer_order = record { total = λ x y h. ground arith; trans = λ x y z h k. ground arith }

insert_at_ok :
    (n : NewTransaction ℕ ℕ) (t : ℕ) (o : Option Row) (s s' : Db) (r : Row)
    → find_first (has_id (next_id s)) s.rows ≡ o
    → insert_at n t o s ≡ (ok r, s')
    → (some t ≡ some r.timestamp)
      × (r ≡ inserted n r.id r.timestamp r.created_at)
      × (s'.rows ≡ s.rows ++ r ∷ [])
      × (s'.logs ≡ s.logs)
      × All (λ x. has_id r.id x ≡ false) s.rows
unfolding inserted
insert_at_ok n t (some taken) s s' r free e = absurd (err-ne-ok e)
insert_at_ok n t none s s' r free e =
    let row : Row = inserted n (next_id s) t (length s.rows) in
    let (r_is, s_is) = ok_pair e in
    subst
      (λ z.
        (some t ≡ some z.timestamp)
        × (z ≡ inserted n z.id z.timestamp z.created_at)
        × (s'.rows ≡ s.rows ++ z ∷ [])
        × (s'.logs ≡ s.logs)
        × All (λ x. has_id z.id x ≡ false) s.rows)
      r_is
      (
        refl,
        refl,
        ap rows_of (sym s_is),
        ap logs_of_db (sym s_is),
        find_first-none (has_id (next_id s)) s.rows free,
      )

insert_dated_ok :
    (n : NewTransaction ℕ ℕ) (o : Option ℕ) (s s' : Db) (r : Row)
    → insert_dated n o s ≡ (ok r, s')
    → (o ≡ some r.timestamp)
      × (r ≡ inserted n r.id r.timestamp r.created_at)
      × (s'.rows ≡ s.rows ++ r ∷ [])
      × (s'.logs ≡ s.logs)
      × All (λ x. has_id r.id x ≡ false) s.rows
insert_dated_ok n none s s' r e = absurd (err-ne-ok e)
insert_dated_ok n (some t) s s' r e =
    insert_at_ok n t (find_first (has_id (next_id s)) s.rows) s s' r refl e

insert_at_err :
    (n : NewTransaction ℕ ℕ) (t : ℕ) (o : Option Row) (s s' : Db) (m : Text)
    → insert_at n t o s ≡ (err m, s')
    → s' ≡ s
insert_at_err n t none s s' m e = absurd (ok-ne-err e)
insert_at_err n t (some taken) s s' m e = sym (err_pair e).1

insert_dated_err :
    (n : NewTransaction ℕ ℕ) (o : Option ℕ) (s s' : Db) (m : Text)
    → insert_dated n o s ≡ (err m, s')
    → s' ≡ s
insert_dated_err n none s s' m e = sym (err_pair e).1
insert_dated_err n (some t) s s' m e =
    insert_at_err n t (find_first (has_id (next_id s)) s.rows) s s' m e

keyed_err :
    (transaction_id amount : Text) (o : Option ℕ) (s s' : Db) (m : Text)
    → keyed transaction_id amount o s ≡ (err m, s')
    → s' ≡ s
keyed_err transaction_id amount none s s' m e = sym (err_pair e).1
keyed_err transaction_id amount (some t) s s' m e = absurd (ok-ne-err e)

commit_ok : (s s' : Db) (t : Row) (r : Result Row × Db) → commit s r ≡ (ok t, s') → r ≡ (ok t, s')
commit_ok s s' t (ok r, after) e = e
commit_ok s s' t (err m, after) e = absurd (err-ne-ok e)

commit_err : (s s' : Db) (m : Text) (r : Result Row × Db) → commit s r ≡ (err m, s') → s' ≡ s
commit_err s s' m (ok r, after) e = absurd (ok-ne-err e)
commit_err s s' m (err n, after) e = sym (err_pair e).1

older_order : IsPreorder older
older_order = record { total = λ x y h. ground arith; trans = λ x y z h k. ground arith }

newest : (xs : List Row) → IsOrdered newer xs → IsNewestFirst xs
newest [] h = tt
newest (x ∷ xs) h = (h.0, newest xs h.1)

oldest : (xs : List Row) → IsOrdered older xs → IsOldestFirst xs
oldest [] h = tt
oldest (x ∷ xs) h = (h.0, oldest xs h.1)

arranged-perm : (o : Option Order) (xs : List Row) → Perm (arranged o xs) xs
unfolding arranged
arranged-perm none xs = Perm.rfl
arranged-perm (some (by_created_at asc)) xs = sort_by-perm older xs
arranged-perm (some (by_created_at desc)) xs = sort_by-perm newer xs

arranged-IsOrderedBy : (o : Option Order) (xs : List Row) → IsOrderedBy o (arranged o xs)
unfolding arranged
arranged-IsOrderedBy none xs = tt
arranged-IsOrderedBy (some (by_created_at asc)) xs =
    oldest (sort_by older xs) (sort_by-IsOrdered older_order xs)
arranged-IsOrderedBy (some (by_created_at desc)) xs =
    newest (sort_by newer xs) (sort_by-IsOrdered newer_order xs)

found_rows-IsResult :
    (q : Query ℕ) (db : Db) (l : List Row) → l ≡ page_of q (found_rows q db) → IsResult q db.rows l
found_rows-IsResult q db l e = record {
  all = found_rows q db;
  complete = arranged-perm q.order_by (keep (matches q.where_all) db.rows);
  in_order = arranged-IsOrderedBy q.order_by (keep (matches q.where_all) db.rows);
  part = e;
}

-- The database of the tests meets every law that the service relies on.
pub memory-IsStore : IsStore memory rows_of logs_of_db
memory-IsStore = record {
  find_by_id_ok = λ id s s' r e. (sym (ok_pair e).1, sym (ok_pair e).0);
  find_by_id_err = λ id s s' m e. absurd (ok-ne-err e);
  find_by_key_ok = λ i a t s s' r e. (sym (ok_pair e).1, sym (ok_pair e).0);
  find_by_key_err = λ i a t s s' m e. keyed_err i a t s s' m e;
  find_by_key_invalid = λ i a s s' r e. err-ne-ok e;
  save_transaction_err = λ n s s' m e. insert_dated_err n n.timestamp s s' m e;
  save_transaction_ok = λ n s s' t e. insert_dated_ok n n.timestamp s s' t e;
  save_log_ok = λ l s s' u e. (ap rows_of (sym (ok_pair e).1), ap logs_of_db (sym (ok_pair e).1));
  update_ok = λ id p s s' u e. (ap rows_of (sym (ok_pair e).1), ap logs_of_db (sym (ok_pair e).1));
  in_transaction_ok = λ m s s' t e. commit_ok s s' t (m s) e;
  in_transaction_err = λ m s s' n e. commit_err s s' n (m s) e;
  get_many_ok = λ q s s' l e. (sym (ok_pair e).1, found_rows-IsResult q s l (sym (ok_pair e).0));
  get_many_and_count_ok = λ q s s' l n e. (
    sym (ok_pair e).1,
    found_rows-IsResult q s l (ap (λ p. p.0) (sym (ok_pair e).0)),
    ap (λ p. p.1) (sym (ok_pair e).0),
  );
}
