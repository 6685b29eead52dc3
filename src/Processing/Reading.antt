-- ===== src/Processing/Reading.antt =====
-- The first part of `processImageJob` of src/processing/processing.service.ts: from a Telegram file to
-- the parsed fields, with the payload of src/queue/types/image-processing-job.type.ts.
pub mod Finite
use birr_track_backend.Base.{Option, Text}
use birr_track_backend.Base.Results.{Result, ok, ◌>>=◌}
use birr_track_backend.Js.Numbers.{JsNumber}
use birr_track_backend.Parsing.Service.{ParsedTransaction, parse}
use birr_track_backend.Processing.Services.{
  Config, LlmExtractResponse, extract_fields, extract_text,
}
use birr_track_backend.Processing.Files.{Response, resolve_telegram_file_download_url}

-- src/queue/types/image-processing-job.type.ts
pub record ImageProcessingJobPayload : Type 0 where
  pub telegram_user_id : Text
  pub telegram_name : Text
  pub file_id : Text

-- What the services outside answer while the job runs.
pub record World (Num Image : Type 0) : Type 0 where
  pub config : Config
  pub get_file : Text → Text → Result Response
  -- `downloadTelegramFileFromUrl`: the bytes, or the error, which is logged and thrown again.
  pub download : Text → Result Image
  pub post_ocr : Text → Image → Result (Option Text)
  pub post_llm : Text → Text → Result (LlmExtractResponse Num)

module _ {Num Image : Type 0} ⦃js : JsNumber Num⦄ where
  -- The address of the file, and what was parsed of its text. None of it touches the database.
  unfoldable pub read_receipt :
      World Num Image → ImageProcessingJobPayload → Result (Text × ParsedTransaction Num)
  read_receipt world payload = do
    file_url ← resolve_telegram_file_download_url world.config world.get_file payload.file_id
    image_buffer ← world.download file_url
    ocr_text ← extract_text world.config world.post_ocr image_buffer
    parsed ← parse (extract_fields world.config world.post_llm) ocr_text
    ok (file_url, parsed)
