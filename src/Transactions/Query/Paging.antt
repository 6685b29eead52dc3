-- ===== src/Transactions/Query/Paging.antt =====
-- That the pages of a request, one after the other, hold each row once.
use mathlib.Core.List.{Perm}
use mathlib.Core.List.Perm
use native.Mathlib.Nat.{zero-mul}
use birr_track_backend.Base.{
  ℕ, zero, suc, ◌+◌, ◌-◌, ◌*◌, ◌<◌, ◌≡◌, sym, subst, ◌∙◌, List, [], ◌∷◌, ◌++◌, arith, take, drop,
  take-add, keep, ltb, min,
}
use birr_track_backend.Base.Results.{ok}
use birr_track_backend.Base.Sums.{sum_by-perm}
use birr_track_backend.Js.Numbers.{JsNumber}
use birr_track_backend.Js.Dates.{JsDate}
use birr_track_backend.Transactions.Entities.{Transaction, TransactionResponse, EditLog}
use birr_track_backend.Transactions.Dto.{GetTransactionsQueryDto}
use birr_track_backend.Transactions.Responses.{AreResponses}
use birr_track_backend.Transactions.Store.{Store}
use birr_track_backend.Transactions.Laws.{IsStore, IsNewestFirst}
use birr_track_backend.Transactions.Query.{Page, build_filtered_query, find_all}
use birr_track_backend.Transactions.Query.Pages.{wanted, IsPage, find_all-IsPage}
use birr_track_backend.Transactions.Query.Ranks.{
  keep-perm, ties, ties-perm, rank, ahead, take-rank, keep_nothing,
}

abbrev pub at_page : GetTransactionsQueryDto → ℕ → GetTransactionsQueryDto
at_page dto k = record dto { page = suc k }

-- The items of the first `n` pages, one after the other.
abbrev pub items_of :
    {Num Time : Type 0} → ℕ → (ℕ → Page Num Time) → List (TransactionResponse Num Time)
items_of zero pages = []
items_of (suc n) pages = items_of n pages ++ (pages n).items

module _ {Num Time : Type 0} ⦃js : JsNumber Num⦄ where
  append-AreResponses :
      (xs : List (Transaction Num Time)) (rs : List (TransactionResponse Num Time))
      (ys : List (Transaction Num Time)) (qs : List (TransactionResponse Num Time))
      → AreResponses xs rs
      → AreResponses ys qs
      → AreResponses (xs ++ ys) (rs ++ qs)
  append-AreResponses [] [] ys qs h k = k
  append-AreResponses [] (r ∷ rs) ys qs h k = absurd h
  append-AreResponses (x ∷ xs) [] ys qs h k = absurd h
  append-AreResponses (x ∷ xs) (r ∷ rs) ys qs h k = (h.0, append-AreResponses xs rs ys qs h.1 k)

module _ {Num Time : Type 0} ⦃dates : JsDate Time⦄ where
  -- The rows of a table that fewer than `n` of its rows are newer than.
  abbrev pub newest : ℕ → List (Transaction Num Time) → List (Transaction Num Time)
  newest n table = keep (λ row. ltb (rank table row) n) table

  take-newest :
      (n : ℕ) (l table : List (Transaction Num Time))
      → Perm l table
      → IsNewestFirst l
      → ties table ≡ 0
      → Perm (take n l) (newest n table)
  take-newest n l table p sorted untied =
      let same : keep (λ row. ltb (rank l row) n) l ≡ keep (λ row. ltb (rank table row) n) l =
        λ i. keep (λ row. ltb (sum_by-perm (ahead row) l table p i) n) l in
      subst (λ z. Perm z (newest n table))
        (sym (take-rank n l sorted (ties-perm l table p ∙ untied) ∙ same))
        (keep-perm (λ row. ltb (rank table row) n) l table p)

module _ {S Num Time : Type 0} ⦃js : JsNumber Num⦄ ⦃dates : JsDate Time⦄ (store : Store S Num Time)
    {rows : S → List (Transaction Num Time)} {logs : S → List EditLog}
    (laws : IsStore store rows logs) where
  -- What the first `n` pages hold: responses of just the rows that fewer than `n` limits of the wanted
  -- rows are newer than.
  pub record ArePages (dto : GetTransactionsQueryDto) (s : S) (n : ℕ) (pages : ℕ → Page Num Time)
      : Type 0 where
    pub listed : List (Transaction Num Time)
    pub responses : AreResponses listed (items_of n pages)
    pub all_newest : Perm listed (newest (n * min dto.limit 100) (wanted store laws dto s))

  next_page :
      (dto : GetTransactionsQueryDto) (s : S) (n : ℕ) (pages : ℕ → Page Num Time)
      → ties (wanted store laws dto s) ≡ 0
      → ArePages dto s n pages
      → IsPage store laws (at_page dto n) s (pages n)
      → ArePages dto s (suc n) pages
  unfolding build_filtered_query
  next_page dto s n pages untied before this =
      let limit : ℕ = min dto.limit 100 in
      let table : List (Transaction Num Time) = wanted store laws dto s in
      let page : List (Transaction Num Time) = take limit (drop (n * limit) this.listing) in
      let skipped : suc n - 1 ≡ n = omega arith in
      let items : AreResponses page (pages n).items =
        subst (λ k. AreResponses (take limit (drop (k * limit) this.listing)) (pages n).items)
          skipped
          (subst (λ l. AreResponses (take l (drop ((suc n - 1) * l) this.listing)) (pages n).items)
            this.limit_is this.items_are) in
      let sum : suc n * limit ≡ n * limit + limit = omega arith in
      let whole : take (suc n * limit) this.listing ≡ take (n * limit) this.listing ++ page =
        rw sum (take-add (n * limit) limit this.listing) in
      let earlier : Perm before.listed (take (n * limit) this.listing) =
        Perm.trans before.all_newest (
          Perm.symm
            (take-newest (n * limit) this.listing table this.complete this.newest_first untied)) in
      record {
        listed = before.listed ++ page;
        responses =
            append-AreResponses before.listed (items_of n pages) page (pages n).items
              before.responses items;
        all_newest = Perm.trans (Perm.append_right page earlier) (
            subst (λ z. Perm z (newest (suc n * limit) table)) whole
              (take-newest (suc n * limit) this.listing table this.complete this.newest_first
                untied));
      }

  -- Where no two of the rows that a request lets through were created at one instant, the first `n`
  -- pages, one after the other, are responses of just those of these rows that fewer than `n` times the
  -- limit of them are newer than, each once: none is skipped or repeated. A limit over 100 counts as
  -- 100.
  pub find_all-ArePages :
      (dto : GetTransactionsQueryDto) (s : S) (pages : ℕ → Page Num Time) (n : ℕ)
      → ties (wanted store laws dto s) ≡ 0
      → ((k : ℕ) → k < n → find_all store (at_page dto k) s ≡ (ok (pages k), s))
      → ArePages dto s n pages
  find_all-ArePages dto s pages zero untied h = record {
    listed = [];
    responses = tt;
    all_newest =
        rw (zero-mul, keep_nothing (rank (wanted store laws dto s)) (wanted store laws dto s))
          Perm.rfl;
  }
  find_all-ArePages dto s pages (suc n) untied h =
      next_page dto s n pages untied
        (find_all-ArePages dto s pages n untied (λ k lt. h k (omega arith)))
        (find_all-IsPage store laws (at_page dto n) s s (pages n) (h n (omega arith))).0
