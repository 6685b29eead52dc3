-- ===== src/Transactions/Laws.antt =====
-- What the service relies on of the database, as PostgreSQL and TypeORM document it. A call that
-- throws is covered too: connections are lost and constraints fail. `rows` and `logs` are the
-- committed tables, or those of the open database transaction.
use mathlib.Core.List.{Perm}
use birr_track_backend.Base.{
  ℕ, ◌≡◌, ◌≢◌, true, false, Option, none, some, List, [], ◌∷◌, ◌++◌, map, Text, keep, find_first,
  length, take, drop, All, codes,
}
use birr_track_backend.Base.Results.{ok, err}
use birr_track_backend.Base.Effects.{M}
use birr_track_backend.Js.Numbers.{decimal}
use birr_track_backend.Js.Dates.{JsDate}
use birr_track_backend.Transactions.Entities.{Transaction, NewTransaction, EditLog}
use birr_track_backend.Transactions.Fields.{Patch}
use birr_track_backend.Transactions.Store.{
  Condition, asc, desc, Order, by_created_at, Aggregate, sum_of_amounts_or_zero, count_of_ids,
  Query, patch_if, has_id, matches, inserted, has_key, Store,
}

abbrev pub limited {ℓ} : {A : Type ℓ} → Option ℕ → List A → List A
limited none xs = xs
limited (some n) xs = take n xs

-- The part of an ordered result that a query asks for.
abbrev pub page_of {ℓ} : {Time : Type 0} {A : Type ℓ} → Query Time → List A → List A
page_of q xs = limited q.limit (drop q.skip xs)

module _ {Num Time : Type 0} ⦃dates : JsDate Time⦄ where
  -- Newest first.
  abbrev pub IsNewestFirst : List (Transaction Num Time) → Type 0
  IsNewestFirst [] = Unit
  IsNewestFirst (x ∷ xs) =
      All (λ y. dates.le y.created_at x.created_at ≡ true) xs × IsNewestFirst xs

  abbrev pub IsOldestFirst : List (Transaction Num Time) → Type 0
  IsOldestFirst [] = Unit
  IsOldestFirst (x ∷ xs) =
      All (λ y. dates.le x.created_at y.created_at ≡ true) xs × IsOldestFirst xs

  abbrev pub IsOrderedBy : Option Order → List (Transaction Num Time) → Type 0
  IsOrderedBy none xs = Unit
  IsOrderedBy (some (by_created_at asc)) xs = IsOldestFirst xs
  IsOrderedBy (some (by_created_at desc)) xs = IsNewestFirst xs

  -- An answer to a query on a table: a part of the rows that it lets through, in its order. Rows that
  -- the order ties come in any order, which may be another one at each query.
  pub record IsResult (q : Query Time) (table l : List (Transaction Num Time)) : Type 0 where
    pub all : List (Transaction Num Time)
    pub complete : Perm all (keep (matches q.where_all) table)
    pub in_order : IsOrderedBy q.order_by all
    pub part : l ≡ page_of q all

  abbrev pub amount_of : Transaction Num Time → Text
  amount_of row = row.amount

  -- The aggregates, in texts: `sum` stands for the sum with `COALESCE`, and the number of rows is
  -- printed in digits.
  abbrev pub aggregate : (List Text → Text) → Aggregate → List (Transaction Num Time) → Text
  aggregate sum sum_of_amounts_or_zero xs = sum (map amount_of xs)
  aggregate sum count_of_ids xs = decimal (length xs)

module _ {S Num Time : Type 0} ⦃dates : JsDate Time⦄ where
  pub record IsStore (store : Store S Num Time) (rows : S → List (Transaction Num Time))
      (logs : S → List EditLog) : Type 0 where
    pub find_by_id_ok :
        (id : Text) (s s' : S) (r : Option (Transaction Num Time))
        → store.find_by_id id s ≡ (ok r, s')
        → (s' ≡ s) × (r ≡ find_first (has_id id) (rows s))
    pub find_by_id_err :
        (id : Text) (s s' : S) (e : Text) → store.find_by_id id s ≡ (err e, s') → s' ≡ s
    pub find_by_key_ok :
        (transaction_id amount : Text) (t : Time) (s s' : S) (r : Option (Transaction Num Time))
        → store.find_by_key transaction_id amount (some t) s ≡ (ok r, s')
        → (s' ≡ s) × (r ≡ find_first (has_key transaction_id amount t) (rows s))
    pub find_by_key_err :
        (transaction_id amount : Text) (t : Option Time) (s s' : S) (e : Text)
        → store.find_by_key transaction_id amount t s ≡ (err e, s')
        → s' ≡ s
    -- A search by an invalid date is an error of the database.
    pub find_by_key_invalid :
        (transaction_id amount : Text) (s s' : S) (r : Option (Transaction Num Time))
        → store.find_by_key transaction_id amount none s ≢ (ok r, s')
    pub save_transaction_err :
        (n : NewTransaction Num Time) (s s' : S) (e : Text)
        → store.save_transaction n s ≡ (err e, s')
        → s' ≡ s
    -- An `INSERT` goes through for a valid date only, and takes an id that no row has.
    pub save_transaction_ok :
        (n : NewTransaction Num Time) (s s' : S) (t : Transaction Num Time)
        → store.save_transaction n s ≡ (ok t, s')
        → (n.timestamp ≡ some t.timestamp)
          × (t ≡ inserted n t.id t.timestamp t.created_at)
          × (rows s' ≡ rows s ++ t ∷ [])
          × (logs s' ≡ logs s)
          × All (λ r. has_id t.id r ≡ false) (rows s)
    pub save_log_ok :
        (l : EditLog) (s s' : S) (u : Unit {0})
        → store.save_log l s ≡ (ok u, s')
        → (rows s' ≡ rows s) × (logs s' ≡ logs s ++ l ∷ [])
    pub update_ok :
        (id : Text) (p : Patch Num Time) (s s' : S) (u : Unit {0})
        → store.update id p s ≡ (ok u, s')
        → (rows s' ≡ map (patch_if id p) (rows s)) × (logs s' ≡ logs s)
    -- A callback that returns is committed, and one that throws is rolled back.
    pub in_transaction_ok :
        (m : M S (Transaction Num Time)) (s s' : S) (t : Transaction Num Time)
        → store.in_transaction m s ≡ (ok t, s')
        → m s ≡ (ok t, s')
    pub in_transaction_err :
        (m : M S (Transaction Num Time)) (s s' : S) (e : Text)
        → store.in_transaction m s ≡ (err e, s')
        → s' ≡ s
    pub get_many_ok :
        (q : Query Time) (s s' : S) (l : List (Transaction Num Time))
        → store.get_many q s ≡ (ok l, s')
        → (s' ≡ s) × IsResult q (rows s) l
    pub get_many_and_count_ok :
        (q : Query Time) (s s' : S) (l : List (Transaction Num Time)) (n : ℕ)
        → store.get_many_and_count q s ≡ (ok (l, n), s')
        → (s' ≡ s) × IsResult q (rows s) l × (n ≡ length (keep (matches q.where_all) (rows s)))

  -- The aggregates: a sum does not depend on the order of the rows, and that of no rows is null and
  -- counts as zero.
  pub record IsSumming (store : Store S Num Time) (rows : S → List (Transaction Num Time))
      (sum : List Text → Text) : Type 0 where
    pub sum_perm : (xs ys : List Text) → Perm xs ys → sum xs ≡ sum ys
    pub sum_none : sum [] ≡ codes "0"
    pub get_raw_one_ok :
        (cs : List (Condition Time)) (columns : List (Aggregate × Text)) (s s' : S)
        (r : Option (List (Text × Text)))
        → store.get_raw_one cs columns s ≡ (ok r, s')
        → (s' ≡ s)
          × (r ≡ some (map (λ c. (c.1, aggregate sum c.0 (keep (matches cs) (rows s)))) columns))
