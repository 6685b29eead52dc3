-- ===== src/Processing/Workers/Runs.antt =====
-- What one step of a run does to the tables and the listeners.
use mathlib.Core.List.{append-nil}
use birr_track_backend.Base.{
  ℕ, ◌≡◌, refl, sym, ap, ◌∙◌, ◌≤◌, arith, Option, none, some, List, [], ◌∷◌, ◌++◌, map, length,
}
use birr_track_backend.Js.Numbers.{JsNumber}
use birr_track_backend.Js.Dates.{JsDate}
use birr_track_backend.Transactions.Entities.{Transaction, EditLog}
use birr_track_backend.Transactions.Fields.{to_response}
use birr_track_backend.Transactions.Store.{Store}
use birr_track_backend.Transactions.Laws.{IsStore}
use birr_track_backend.Transactions.Service.{new_transaction, create, find_duplicate}
use birr_track_backend.Processing.Job.{Backend, create_dto}
use birr_track_backend.Processing.Job.Saved.{lookup_keeps}
use birr_track_backend.Processing.Workers.{
  Phase, Entry, Throws, read_throws, look_up_throws, insert_throws, Advances, skip, look_up, insert,
}

-- The most rows that a step to a phase, or to the end, adds.
abbrev pub most_rows : {Num : Type 0} → Option (Phase Num) → ℕ
most_rows none = 1
most_rows (some _) = 0

module _ {S Num Time : Type 0} ⦃js : JsNumber Num⦄ ⦃dates : JsDate Time⦄ (Image : Type 0)
    (store : Store S Num Time) {rows : S → List (Transaction Num Time)} {logs : S → List EditLog}
    (laws : IsStore store rows logs) where
  -- The rows `new` were added, and announced in their order.
  pub record Grown (b b' : Backend S Num Time) (new : List (Transaction Num Time)) : Type 0 where
    pub rows_after : rows b'.db ≡ rows b.db ++ new
    pub events_after : b'.emitted ≡ b.emitted ++ map to_response new
    pub logs_after : logs b'.db ≡ logs b.db

  same_db : (b : Backend S Num Time) (s' : S) → s' ≡ b.db → Grown b (record b { db = s' }) []
  same_db b s' same = record {
    rows_after = ap rows same ∙ sym (append-nil (rows b.db));
    events_after = sym (append-nil b.emitted);
    logs_after = ap logs same;
  }

  pub Throws-Grown :
      (e : Entry) (b b' : Backend S Num Time) (phase : Phase Num)
      → Throws Image store e b phase b'
      → Grown b b' []
  unfolding find_duplicate create
  Throws-Grown e b b' _ (read_throws w m failed) = same_db b b.db refl
  Throws-Grown e b b' _ (look_up_throws fields m s' failed) = same_db b s' (
      laws.find_by_key_err fields.transaction_id (js.to_fixed_2 fields.amount)
        (dates.date_of fields.timestamp) b.db s' m failed)
  Throws-Grown e b b' _ (insert_throws url c fields flag m s' failed) = same_db b s' (
      laws.save_transaction_err (new_transaction (create_dto e.payload url fields c flag)) b.db s' m
        failed)

  pub Advances-Grown :
      (e : Entry) (b b' : Backend S Num Time) (phase : Phase Num) (next : Option (Phase Num))
      → Advances Image store e b phase b' next
      → (new : List (Transaction Num Time)) × Grown b b' new × (length new ≤ most_rows next)
  unfolding create
  Advances-Grown e b b' _ _ (skip w url p read missing) = ([], same_db b b.db refl, omega arith)
  Advances-Grown e b b' _ _ (look_up w url p fields o s' read full looked) =
      ([], same_db b s' (lookup_keeps store laws fields b.db s' o looked), omega arith)
  Advances-Grown e b b' _ _ (insert url c fields flag t s' made) =
      let (_, _, rows_s', logs_s', _) =
        laws.save_transaction_ok (new_transaction (create_dto e.payload url fields c flag)) b.db s'
          t made in
      (
        t ∷ [],
        record { rows_after = rows_s'; events_after = refl; logs_after = logs_s' },
        omega arith,
      )
