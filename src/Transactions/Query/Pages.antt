-- ===== src/Transactions/Query/Pages.antt =====
-- What a page of a listing holds.
use mathlib.Core.List.{Perm}
use birr_track_backend.Base.{
  inl, inr, ◌-◌, ◌*◌, ◌≡◌, refl, sym, subst, ◌∙◌, List, map, take, drop, length, keep, min,
}
use birr_track_backend.Base.Results.{ok}
use birr_track_backend.Base.Effects.{Call-cases, ok_pair, err-ne-ok}
use birr_track_backend.Js.Numbers.{JsNumber}
use birr_track_backend.Js.Dates.{JsDate}
use birr_track_backend.Transactions.Entities.{Transaction, EditLog}
use birr_track_backend.Transactions.Dto.{GetTransactionsQueryDto, get_effective_limit}
use birr_track_backend.Transactions.Fields.{to_response}
use birr_track_backend.Transactions.Responses.{AreResponses, map-to_response-AreResponses}
use birr_track_backend.Transactions.Store.{Store, matches}
use birr_track_backend.Transactions.Laws.{IsStore, IsNewestFirst}
use birr_track_backend.Transactions.Query.{Page, build_filtered_query, page_query, find_all}

module _ {S Num Time : Type 0} ⦃js : JsNumber Num⦄ ⦃dates : JsDate Time⦄ (store : Store S Num Time)
    {rows : S → List (Transaction Num Time)} {logs : S → List EditLog}
    (laws : IsStore store rows logs) where
  -- The rows of the table that a request lets through.
  abbrev pub wanted : GetTransactionsQueryDto → S → List (Transaction Num Time)
  wanted dto s = keep (matches (build_filtered_query dto)) (rows s)

  -- The page that a request gets, of a listing.
  pub record IsPage (dto : GetTransactionsQueryDto) (s : S) (p : Page Num Time) : Type 0 where
    pub listing : List (Transaction Num Time)
    pub complete : Perm listing (wanted dto s)
    pub newest_first : IsNewestFirst listing
    pub page_is : p.page ≡ dto.page
    pub limit_is : p.limit ≡ min dto.limit 100
    pub total_is : p.total ≡ length (wanted dto s)
    pub items_are : AreResponses (take p.limit (drop ((dto.page - 1) * p.limit) listing)) p.items

  -- A listing that returns changes nothing. Its limit is the one asked for, or 100 if that is less, and
  -- its total is the number of the rows that the request lets through. Its items are responses of
  -- rows of a listing of just these rows, newest first: of those from the start of the page on, as
  -- many as the limit. A response has the columns of its row, with the amount as a number.
  pub find_all-IsPage :
      (dto : GetTransactionsQueryDto) (s s' : S) (p : Page Num Time)
      → find_all store dto s ≡ (ok p, s')
      → IsPage dto s p × (s' ≡ s)
  unfolding find_all get_effective_limit
  find_all-IsPage dto s s' p e = elim (Call-cases (store.get_many_and_count (page_query dto) s)) [
    | inr (m, s1, failed) ↦ absurd (err-ne-ok (rw failed at e))
    | inl ((l, n), s1, done) ↦
        let (same, result, n_is) = laws.get_many_and_count_ok (page_query dto) s s1 l n done in
        let (p_is, s_is) = ok_pair (rw done at e) in
        (
          subst (IsPage dto s) p_is (record {
            listing = result.all;
            complete = result.complete;
            newest_first = result.in_order;
            page_is = refl;
            limit_is = refl;
            total_is = n_is;
            items_are =
                subst (λ z. AreResponses z (map to_response l)) result.part
                  (map-to_response-AreResponses l);
          }),
          sym s_is ∙ same,
        )
  ]
