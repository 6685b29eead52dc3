-- ===== src/Transactions/Service/Exported.antt =====
-- What an exported worksheet holds.
use mathlib.Core.List.{Perm}
use birr_track_backend.Base.{
  ◌≡◌, inl, inr, refl, sym, ap, subst, ◌∙◌, Option, none, some, codes, text_eq, if◌then◌else◌, List,
  [], ◌∷◌, map, Text, keep,
}
use birr_track_backend.Base.Results.{ok}
use birr_track_backend.Base.Effects.{Call-cases, ok_pair, err-ne-ok}
use birr_track_backend.Js.Numbers.{JsNumber}
use birr_track_backend.Js.Dates.{JsDate}
use birr_track_backend.Transactions.Entities.{Transaction, EditLog}
use birr_track_backend.Transactions.Dto.{GetTransactionsQueryDto}
use birr_track_backend.Transactions.Query.{build_filtered_query}
use birr_track_backend.Transactions.Store.{Store, matches}
use birr_track_backend.Transactions.Laws.{IsStore, IsResult, IsNewestFirst}
use birr_track_backend.Transactions.Service.{
  Column, columns, Cell, text, number, flag, text_or_empty, Worksheet, worksheet_row, export_query,
  export,
}

-- The cell under a key.
unfoldable pub cell {ℓ} : {A : Type ℓ} → Text → List (Text × A) → Option A
cell key [] = none
cell key ((k, c) ∷ cells) = let rest = cell key cells in if text_eq k key then some c else rest

-- The image's address, or an empty text if there is none.
abbrev url_text : Option Text → Text
url_text none = []
url_text (some url) = url

url_text_lem : (o : Option Text) → text_or_empty o ≡ url_text o
url_text_lem none = refl
url_text_lem (some url) = refl

module _ {Num Time : Type 0} ⦃js : JsNumber Num⦄ ⦃dates : JsDate Time⦄ where
  -- The cells of a row: a cell for each column, in their order, and what stands under each key.
  pub record IsRowOf (row : Transaction Num Time) (cells : List (Text × Cell Num)) : Type 0 where
    pub in_columns : map (λ (c : Text × Cell Num). c.0) cells ≡ map (λ (c : Column). c.1) columns
    pub id : cell (codes "id") cells ≡ some (text row.id)
    pub telegram_user_id : cell (codes "telegramUserId") cells ≡ some (text row.telegram_user_id)
    pub telegram_name : cell (codes "telegramName") cells ≡ some (text row.telegram_name)
    pub amount : cell (codes "amount") cells ≡ some (number (js.number_of row.amount))
    pub transaction_id : cell (codes "transactionId") cells ≡ some (text row.transaction_id)
    pub timestamp : cell (codes "timestamp") cells ≡ some (text (dates.iso_of row.timestamp))
    pub bank_name : cell (codes "bankName") cells ≡ some (text row.bank_name)
    pub confidence : cell (codes "confidence") cells ≡ some (number row.confidence)
    pub is_duplicate : cell (codes "isDuplicate") cells ≡ some (flag row.is_duplicate)
    pub image_url : cell (codes "imageUrl") cells ≡ some (text (url_text row.image_url))
    pub created_at : cell (codes "createdAt") cells ≡ some (text (dates.iso_of row.created_at))

  worksheet_row-IsRowOf : (row : Transaction Num Time) → IsRowOf row (worksheet_row row)
  unfolding worksheet_row cell text_eq
  worksheet_row-IsRowOf row = record {
    in_columns = refl;
    id = refl;
    telegram_user_id = refl;
    telegram_name = refl;
    amount = refl;
    transaction_id = refl;
    timestamp = refl;
    bank_name = refl;
    confidence = refl;
    is_duplicate = refl;
    image_url = ap (λ t. some (text t)) (url_text_lem row.image_url);
    created_at = refl;
  }

  -- One row of cells for each row of the table, in their order.
  abbrev AreRowsOf : List (Transaction Num Time) → List (List (Text × Cell Num)) → Type 0
  AreRowsOf [] [] = Unit
  AreRowsOf (row ∷ rows) (cells ∷ body) = IsRowOf row cells × AreRowsOf rows body
  AreRowsOf _ _ = ⊥

  map-worksheet_row-AreRowsOf :
      (rows : List (Transaction Num Time)) → AreRowsOf rows (map worksheet_row rows)
  map-worksheet_row-AreRowsOf [] = tt
  map-worksheet_row-AreRowsOf (row ∷ rows) =
      (worksheet_row-IsRowOf row, map-worksheet_row-AreRowsOf rows)

module _ {S Num Time : Type 0} ⦃js : JsNumber Num⦄ ⦃dates : JsDate Time⦄ (store : Store S Num Time)
    {rows : S → List (Transaction Num Time)} {logs : S → List EditLog}
    (laws : IsStore store rows logs) where
  -- A worksheet of the rows that a request filters.
  pub record IsSheet (dto : GetTransactionsQueryDto) (s : S) (w : Worksheet Num) : Type 0 where
    pub items : List (Transaction Num Time)
    pub complete : Perm items (keep (matches (build_filtered_query dto)) (rows s))
    pub newest_first : IsNewestFirst items
    pub header_is : w.header ≡ columns
    pub body_of : AreRowsOf items w.body

  sheet :
      (dto : GetTransactionsQueryDto) (s : S) (items : List (Transaction Num Time))
      → IsResult (export_query dto) (rows s) items
      → IsSheet dto s (record { header = columns; body = map worksheet_row items })
  sheet dto s items result = record {
    items = items;
    complete =
        subst (λ z. Perm z (keep (matches (build_filtered_query dto)) (rows s))) (sym result.part)
          result.complete;
    newest_first = subst IsNewestFirst (sym result.part) result.in_order;
    header_is = refl;
    body_of = map-worksheet_row-AreRowsOf items;
  }

  -- An export that returns changes nothing. Its sheet has one row for each row of the table that the
  -- request lets through, newest first. The cells of each row stand under the columns' own keys, in
  -- their order; under each key is the text of the row's column, the amount and the confidence as
  -- numbers, the dates in their ISO texts, and nothing for an image that is missing.
  pub export-IsSheet :
      (dto : GetTransactionsQueryDto) (s s' : S) (w : Worksheet Num)
      → export store dto s ≡ (ok w, s')
      → IsSheet dto s w × (s' ≡ s)
  unfolding export
  export-IsSheet dto s s' w e = elim (Call-cases (store.get_many (export_query dto) s)) [
    | inr (m, s1, failed) ↦ absurd (err-ne-ok (rw failed at e))
    | inl (items, s1, read) ↦
        let (same, items_are) = laws.get_many_ok (export_query dto) s s1 items read in
        let (w_is, s_is) = ok_pair (rw read at e) in
        (subst (IsSheet dto s) w_is (sheet dto s items items_are), sym s_is ∙ same)
  ]
