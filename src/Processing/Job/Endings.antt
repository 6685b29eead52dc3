-- ===== src/Processing/Job/Endings.antt =====
-- What a job has done to the database and to the listeners, when it ends.
use birr_track_backend.Base.{◌≡◌, inl, inr, sym, Option, none, some, List, Text}
use birr_track_backend.Base.Results.{err, Result-cases}
use birr_track_backend.Base.Effects.{err_pair, ok-ne-err}
use birr_track_backend.Js.Numbers.{JsNumber}
use birr_track_backend.Js.Dates.{JsDate}
use birr_track_backend.Parsing.Service.{ParsedTransaction}
use birr_track_backend.Transactions.Entities.{Transaction, EditLog}
use birr_track_backend.Transactions.Store.{Store}
use birr_track_backend.Transactions.Laws.{IsStore}
use birr_track_backend.Processing.Reading.{ImageProcessingJobPayload, World, read_receipt}
use birr_track_backend.Processing.Job.{
  Backend, Critical, critical_fields, save_if_complete, process_image_job,
}
use birr_track_backend.Processing.Job.Saved.{Saved, save_receipt_err}

module _ {S Num Time : Type 0} ⦃js : JsNumber Num⦄ ⦃dates : JsDate Time⦄ (store : Store S Num Time)
    {rows : S → List (Transaction Num Time)} {logs : S → List EditLog}
    (laws : IsStore store rows logs) where
  -- What a job that ended well has done: nothing, if a critical field was missing.
  pub data Ended (payload : ImageProcessingJobPayload) (file_url : Text) (p : ParsedTransaction Num)
      (b b' : Backend S Num Time) : Type 0 where
    skipped : critical_fields p ≡ none → b' ≡ b → Ended payload file_url p b b'
    saved :
        (fields : Critical Num)
        → critical_fields p ≡ some fields
        → Saved store laws payload file_url p.confidence fields b b'
        → Ended payload file_url p b b'

  save_if_complete_err :
      (payload : ImageProcessingJobPayload) (file_url : Text) (confidence : Num)
      (o : Option (Critical Num)) (b b' : Backend S Num Time) (m : Text)
      → save_if_complete store payload file_url confidence o b ≡ (err m, b')
      → b' ≡ b
  save_if_complete_err payload file_url confidence none b b' m e = absurd (ok-ne-err e)
  save_if_complete_err payload file_url confidence (some fields) b b' m e =
      save_receipt_err store laws payload file_url confidence fields b b' m e

  module _ {Image : Type 0} (world : World Num Image) (payload : ImageProcessingJobPayload) where
    -- A job that fails, at whichever step, has added no row and sent no event, so that the queue can
    -- run it again.
    pub process_image_job_err :
        (b b' : Backend S Num Time) (m : Text)
        → process_image_job store world payload b ≡ (err m, b')
        → b' ≡ b
    unfolding process_image_job
    process_image_job_err b b' m e = elim (Result-cases (read_receipt world payload)) [
      | inr (n, failed) ↦ sym (err_pair (rw failed at e)).1
      | inl ((url, p), read) ↦
          save_if_complete_err payload url p.confidence (critical_fields p) b b' m (rw read at e)
    ]
