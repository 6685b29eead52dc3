-- ===== src/Tests/Processing.antt =====
-- The theorems on the jobs of the queue, at one receipt.
use birr_track_backend.Base.{
  ℕ, ◌≡◌, refl, Bool, true, false, none, some, List, [], ◌∷◌, ◌++◌, Text, codes, trim,
}
use birr_track_backend.Base.Results.{ok, err}
use birr_track_backend.Js.Numbers.{parse_int}
use birr_track_backend.Tests.Decimal.{hundredths}
use birr_track_backend.Tests.Database.{day_numbers, Db, Row, memory, memory-IsStore}
use birr_track_backend.Tests.Parsing.{receipt, parser}
use birr_track_backend.Tests.Transactions.{tables}
use birr_track_backend.Parsing.Service.{ParsedTransaction}
use birr_track_backend.Transactions.Fields.{to_response}
use birr_track_backend.Processing.Services.{extracted, extract_fields, extract_text}
use birr_track_backend.Processing.Files.{
  GetFileObject, object, file_path_of, get_file_failed, stringify_axios_body,
  resolve_telegram_file_download_url,
}
use birr_track_backend.Processing.Reading.{ImageProcessingJobPayload, World, read_receipt}
use birr_track_backend.Processing.Files.Address.{
  Resolved, resolve_telegram_file_download_url-Resolved,
}
use birr_track_backend.Processing.Reading.Finite.{IsFinite, read_receipt-IsFinite}
use birr_track_backend.Processing.Job.{
  Backend, Critical, critical_fields, create_dto, save_receipt, process_image_job,
}
use birr_track_backend.Processing.Job.Saved.{same_receipt}
use birr_track_backend.Processing.Job.Endings.{process_image_job_err}
use birr_track_backend.Processing.Job.Repeats.{SameKey, save_receipt-repeat, save_receipt_race}

-- Everything that a run of a job computes with.
jobs : Unit {0}
unfolding parser tables trim extracted extract_fields extract_text file_path_of get_file_failed
    stringify_axios_body resolve_telegram_file_download_url read_receipt critical_fields create_dto
    save_receipt process_image_job
jobs = tt

abbrev file : GetFileObject
file = record {
  is_ok = true;
  description = none;
  file_path = some (codes "photos/1.jpg");
  json = ok (codes "{}");
}

abbrev pub world : World ℕ (Unit {0})
world = record {
  config = λ key. some (codes "http://x");
  get_file = λ url id. ok (record { status = 200; body = object file });
  download = λ url. ok tt;
  post_ocr = λ url image. ok (some receipt);
  post_llm = λ url text. err (codes "down");
}

-- The OCR service is down.
abbrev no_ocr : World ℕ (Unit {0})
no_ocr = record world { post_ocr = λ url image. err (codes "ECONNREFUSED") }

abbrev pub payload : ImageProcessingJobPayload
payload = record {
  telegram_user_id = codes "7";
  telegram_name = codes "Abel";
  file_id = codes "AgAC";
}

abbrev url : Text
url = codes "https://api.telegram.org/file/bothttp://x/photos/1.jpg"

abbrev day : Text
day = codes "2026-04-04T00:00:00.000Z"

abbrev fields : Critical ℕ
fields = record {
  amount = 10000;
  transaction_id = codes "FT26094X0XVY";
  timestamp = day;
  bank_name = codes "Commercial Bank of Ethiopia";
}

-- The row of the receipt, as the `n`-th row of the table.
abbrev stored : Text → ℕ → Bool → Row
stored id n is_duplicate = record {
  id = id;
  telegram_user_id = codes "7";
  telegram_name = codes "Abel";
  amount = codes "100.00";
  transaction_id = codes "FT26094X0XVY";
  timestamp = parse_int day;
  bank_name = codes "Commercial Bank of Ethiopia";
  confidence = 92;
  is_duplicate = is_duplicate;
  image_url = some url;
  created_at = n;
}

abbrev table : List Row → Db
table rows = record { rows = rows; logs = [] }

abbrev first : Row
first = stored (codes "0") 0 false

abbrev second : Row
second = stored (codes "1") 1 true

abbrev unseen : Row
unseen = stored (codes "1") 1 false

abbrev backend : List Row → Backend Db ℕ ℕ
backend rows = record { db = table rows; emitted = [] }

abbrev pub start : Backend Db ℕ ℕ
start = backend []

abbrev pub once : Backend Db ℕ ℕ
once = record { db = table (first ∷ []); emitted = to_response first ∷ [] }

abbrev twice : Backend Db ℕ ℕ
twice = record {
  db = table (first ∷ second ∷ []);
  emitted = to_response first ∷ to_response second ∷ [];
}

pub job_runs : process_image_job memory world payload start ≡ (ok tt, once)
unfolding jobs
job_runs = refl

job_fails : process_image_job memory no_ocr payload once ≡ (err (codes "ECONNREFUSED"), once)
unfolding jobs
job_fails = refl

process_image_job_err_example : once ≡ once
process_image_job_err_example =
    process_image_job_err memory memory-IsStore no_ocr payload once once (codes "ECONNREFUSED")
      job_fails

same_key : SameKey fields fields
same_key = record { transaction_id = refl; amount = refl; timestamp = refl }

save_receipt-repeat_example :
    (row : Row) × (twice.db.rows ≡ once.db.rows ++ row ∷ []) × (row.is_duplicate ≡ true)
unfolding jobs
save_receipt-repeat_example =
    save_receipt-repeat memory memory-IsStore payload payload url url 92 92 fields fields start once
      once twice [] tt tt same_key refl refl refl

save_receipt_race_example :
    (first ∷ unseen ∷ [] ≡ [] ++ first ∷ unseen ∷ [])
    × (first.is_duplicate ≡ false)
    × (unseen.is_duplicate ≡ false)
    × (same_receipt fields first.timestamp unseen ≡ true)
unfolding jobs
save_receipt_race_example =
    save_receipt_race memory memory-IsStore payload payload url url 92 92 fields fields (table [])
      (table []) (table []) (table (first ∷ [])) (table (first ∷ unseen ∷ [])) none none first
      unseen same_key refl refl refl refl refl

address_found :
    resolve_telegram_file_download_url world.config world.get_file payload.file_id ≡ ok url
unfolding jobs
address_found = refl

resolve_telegram_file_download_url-Resolved_example :
    Resolved world.config world.get_file (codes "AgAC") url
resolve_telegram_file_download_url-Resolved_example =
    resolve_telegram_file_download_url-Resolved world.config world.get_file (codes "AgAC") url
      address_found

abbrev read_fields : ParsedTransaction ℕ
read_fields = record {
  bank_name = some (codes "Commercial Bank of Ethiopia");
  amount = some 10000;
  transaction_id = some (codes "FT26094X0XVY");
  timestamp = some day;
  confidence = 92;
  used_llm = false;
}

receipt_read : read_receipt world payload ≡ ok (url, read_fields)
unfolding jobs
receipt_read = refl

read_receipt-IsFinite_example : IsFinite read_fields.amount
read_receipt-IsFinite_example = read_receipt-IsFinite world payload url read_fields receipt_read
