-- ===== src/Transactions/Update/Requests.antt =====
-- The handler of `PATCH /transactions/:id`: who an edit is attributed to.
use birr_track_backend.Base.{
  ◌≡◌, ◌≢◌, refl, sym, ap, ◌∙◌, Option, none, some, List, [], ◌∷◌, Text, codes, trim,
}
use birr_track_backend.Base.Results.{ok}
use birr_track_backend.Js.Numbers.{JsNumber}
use birr_track_backend.Js.Dates.{JsDate}
use birr_track_backend.Transactions.Entities.{Transaction, TransactionResponse, EditLog}
use birr_track_backend.Transactions.Dto.{UpdateTransactionDto}
use birr_track_backend.Transactions.Store.{Store}
use birr_track_backend.Transactions.Laws.{IsStore}
use birr_track_backend.Transactions.Update.{or_default_editor, editor_of, update_transaction}
use birr_track_backend.Transactions.Update.Outcome.{Updated, update_ok}

-- The editor that a header names: its text without the blanks around it, or "system" if there is none or
-- it is blank.
pub record IsEditor (header : Option Text) (editor : Text) : Type 0 where
  pub not_empty : editor ≢ []
  pub blank : (t : Text) → header ≡ some t → trim t ≡ [] → editor ≡ codes "system"
  pub given : (t : Text) → header ≡ some t → trim t ≢ [] → editor ≡ trim t
  pub missing : header ≡ none → editor ≡ codes "system"

some_injective {ℓ} : {A : Type ℓ} {a b : A} → some a ≡ some b → a ≡ b
some_injective e = cc

trimmed-IsEditor : (t w : Text) → trim t ≡ w → IsEditor (some t) (or_default_editor w)
trimmed-IsEditor t [] blank = record {
  not_empty = λ e. cc;
  given = λ u e some_name. absurd (some_name (ap trim (sym (some_injective e)) ∙ blank));
  blank = λ u e none_left. refl;
  missing = λ e. absurd (cc);
}
trimmed-IsEditor t (c ∷ s) name = record {
  not_empty = λ e. cc;
  blank = λ u e none_left. absurd (cc (name, e, none_left));
  given = λ u e some_name. sym name ∙ ap trim (some_injective e);
  missing = λ e. absurd (cc);
}

editor_of-IsEditor : (header : Option Text) → IsEditor header (editor_of header)
unfolding editor_of
editor_of-IsEditor none = record {
  not_empty = λ e. cc;
  blank = λ t e none_left. absurd (cc);
  given = λ t e some_name. absurd (cc);
  missing = λ e. refl;
}
editor_of-IsEditor (some t) = trimmed-IsEditor t (trim t) refl

module _ {S Num Time : Type 0} ⦃js : JsNumber Num⦄ ⦃dates : JsDate Time⦄ (store : Store S Num Time)
    {rows : S → List (Transaction Num Time)} {logs : S → List EditLog}
    (laws : IsStore store rows logs) where
  -- A `PATCH` request that is answered has done what the update does, and each of its logs names as
  -- the editor the header `x-editor` without the blanks around it, or "system" if there is no header or it
  -- is blank; the editor's name is never empty.
  pub update_transaction-Updated :
      (id : Text) (dto : UpdateTransactionDto Num) (header : Option Text) (s s' : S)
      (r : TransactionResponse Num Time)
      → update_transaction store id dto header s ≡ (ok r, s')
      → (editor : Text) × IsEditor header editor × Updated store laws id dto editor s s' r
  unfolding update_transaction
  update_transaction-Updated id dto header s s' r e = (
    editor_of header,
    editor_of-IsEditor header,
    update_ok store laws id dto (editor_of header) s s' r e,
  )
