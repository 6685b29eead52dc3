-- ===== src/Transactions/Store.antt =====
-- The database behind TypeORM's repositories: the calls that the service makes, and what it relies
-- on of them. Neither is part of the repository.
use birr_track_backend.Base.{
  ℕ, Bool, true, ◌&&◌, false, Option, none, some, List, [], ◌∷◌, Text, text_eq, if◌then◌else◌,
}
use birr_track_backend.Base.Effects.{M}
use birr_track_backend.Transactions.Bigint.{bigint_of, same_bigint}
use birr_track_backend.Js.Dates.{JsDate}
use birr_track_backend.Transactions.Entities.{Transaction, NewTransaction, EditLog}
use birr_track_backend.Transactions.Dto.{Given, absent, null, given}
use birr_track_backend.Transactions.Fields.{Patch}

-- A `where` clause of `buildFilteredQuery`, with its parameter.
pub data Condition (Time : Type 0) : Type 0 where
  timestamp_from timestamp_to : Option Time → Condition Time
  of_user : Text → Condition Time

-- `'ASC'` and `'DESC'`, and the column of an `orderBy`.
pub data Direction : Type 0 where
  asc desc : Direction

pub data Order : Type 0 where
  by_created_at : Direction → Order

-- What `createQueryBuilder` has gathered: the `andWhere` clauses, the `orderBy`, and how much of the
-- result is asked for.
pub record Query (Time : Type 0) : Type 0 where
  pub where_all : List (Condition Time)
  pub order_by : Option Order
  pub skip : ℕ
  pub limit : Option ℕ

-- `select` and `addSelect` of an aggregate, with its alias.
pub data Aggregate : Type 0 where
  -- `COALESCE(SUM(transaction.amount), 0)` and `COUNT(transaction.id)`
  sum_of_amounts_or_zero count_of_ids : Aggregate

-- What a patch makes of a column.
abbrev pub column {ℓ} : {A : Type ℓ} → A → Given A → A
column old (given a) = a
column old _ = old

abbrev pub date_column {ℓ} : {A : Type ℓ} → A → Given (Option A) → A
date_column old (given (some a)) = a
date_column old _ = old

abbrev pub nullable_column {ℓ} : {A : Type ℓ} → Option A → Given A → Option A
nullable_column old absent = old
nullable_column old null = none
nullable_column old (given a) = some a

module _ {Num Time : Type 0} where
  -- A row after an `UPDATE` that went through: a null is refused but for `imageUrl`, which is the
  -- only nullable column.
  unfoldable pub patch_row : Patch Num Time → Transaction Num Time → Transaction Num Time
  patch_row p row = record row {
    amount = column row.amount p.amount;
    transaction_id = column row.transaction_id p.transaction_id;
    timestamp = date_column row.timestamp p.timestamp;
    bank_name = column row.bank_name p.bank_name;
    confidence = column row.confidence p.confidence;
    image_url = nullable_column row.image_url p.image_url;
  }

  abbrev pub has_id : Text → Transaction Num Time → Bool
  has_id id row = text_eq row.id id

  unfoldable pub patch_if : Text → Patch Num Time → Transaction Num Time → Transaction Num Time
  patch_if id p row = if has_id id row then patch_row p row else row

module _ {Num Time : Type 0} ⦃dates : JsDate Time⦄ where
  -- A parameter that is no date or no integer is an error of the database: no row comes of it.
  unfoldable pub holds : Condition Time → Transaction Num Time → Bool
  holds (timestamp_from (some t)) row = dates.le t row.timestamp
  holds (timestamp_to (some t)) row = dates.le row.timestamp t
  holds (of_user user) row = same_bigint (bigint_of row.telegram_user_id) (bigint_of user)
  holds _ row = false

  unfoldable pub matches : List (Condition Time) → Transaction Num Time → Bool
  matches [] row = true
  matches (c ∷ cs) row = holds c row && matches cs row

  -- The row that an `INSERT` makes, with its generated columns.
  unfoldable pub inserted : NewTransaction Num Time → Text → Time → Time → Transaction Num Time
  inserted n id timestamp created_at = record {
    id = id;
    telegram_user_id = n.telegram_user_id;
    telegram_name = n.telegram_name;
    amount = n.amount;
    transaction_id = n.transaction_id;
    timestamp = timestamp;
    bank_name = n.bank_name;
    confidence = n.confidence;
    is_duplicate = n.is_duplicate;
    image_url = n.image_url;
    created_at = created_at;
  }

  -- The `where` of `findDuplicate`.
  unfoldable pub has_key : Text → Text → Time → Transaction Num Time → Bool
  has_key transaction_id amount t row =
      text_eq row.transaction_id transaction_id
      && (text_eq row.amount amount && dates.same t row.timestamp)

-- The calls. `S` is the state of the database.
pub record Store (S Num Time : Type 0) : Type 0 where
  -- `transactionRepository.save(create(...))`
  pub save_transaction : NewTransaction Num Time → M S (Transaction Num Time)
  -- `findOne({ where: { id } })`
  pub find_by_id : Text → M S (Option (Transaction Num Time))
  -- `findOne({ where: { transactionId, amount, timestamp } })`
  pub find_by_key : Text → Text → Option Time → M S (Option (Transaction Num Time))
  -- `getRepository(EditLog).save(...)`
  pub save_log : EditLog → M S (Unit {0})
  -- `getRepository(Transaction).update(id, ...)`
  pub update : Text → Patch Num Time → M S (Unit {0})
  -- `dataSource.transaction(...)`
  pub in_transaction : M S (Transaction Num Time) → M S (Transaction Num Time)
  pub get_many : Query Time → M S (List (Transaction Num Time))
  pub get_many_and_count : Query Time → M S (List (Transaction Num Time) × ℕ)
  -- `getRawOne()` of aggregates: an answer by the aliases, in texts.
  pub get_raw_one :
      List (Condition Time) → List (Aggregate × Text) → M S (Option (List (Text × Text)))
