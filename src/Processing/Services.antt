-- ===== src/Processing/Services.antt =====
-- src/processing/ocr.service.ts and src/processing/llm.service.ts. What `axios` answers is a
-- parameter: the value of a 2xx response, or the error that it throws.
use birr_track_backend.Base.{
  ◌≡◌, ◌≢◌, ap, Option, none, some, [], ◌∷◌, ◌++◌, Text, codes, trim, ◌or_else◌, if◌then◌else◌,
}
use birr_track_backend.Base.Results.{Result, ok, err, ◌>>=◌, ok-injective}
use birr_track_backend.Js.Numbers.{JsNumber}
use birr_track_backend.Parsing.Fields.{Extracted}

-- `ConfigService.get`.
abbrev pub Config : Type 0
Config = Text → Option Text

-- A setting that must not be missing or empty.
abbrev pub required : Option Text → Text → Result Text
required none message = err message
required (some []) message = err message
required (some (c ∷ s)) message = ok (c ∷ s)

pub required_ok : (o : Option Text) (m t : Text) → required o m ≡ ok t → (o ≡ some t) × (t ≢ [])
required_ok none m t e = absurd (cc)
required_ok (some []) m t e = absurd (cc)
required_ok (some (c ∷ s)) m t e = (ap some (ok-injective e), λ n. cc)

-- The amount of an LLM's answer: a number, or any other JSON value.
pub data JsonAmount (Num : Type 0) : Type 0 where
  number : Num → JsonAmount Num
  not_number : JsonAmount Num

-- `LlmExtractResponse`; `none` is null or missing.
pub record LlmExtractResponse (Num : Type 0) : Type 0 where
  pub bank_name : Option Text
  pub amount : JsonAmount Num
  pub transaction_id : Option Text
  pub timestamp : Option Text
  pub bank_name_camel : Option Text
  pub transaction_id_camel : Option Text

module _ {Num : Type 0} ⦃js : JsNumber Num⦄ where
  abbrev pub finite_amount : JsonAmount Num → Option Num
  finite_amount not_number = none
  finite_amount (number n) = if js.is_finite n then some n else none

  unfoldable pub extracted : LlmExtractResponse Num → Extracted Num
  extracted response = record {
    bank_name = response.bank_name_camel or_else response.bank_name;
    amount = finite_amount response.amount;
    transaction_id = response.transaction_id_camel or_else response.transaction_id;
    timestamp = response.timestamp;
  }

  -- `LlmService.extractFields`.
  unfoldable pub extract_fields :
      Config → (Text → Text → Result (LlmExtractResponse Num)) → Text → Result (Extracted Num)
  extract_fields config post ocr_text = do
    llm_base_url ←
        required (config (codes "LLM_SERVICE_URL")) (codes "LLM_SERVICE_URL is not configured")
    response ← post (llm_base_url ++ codes "/llm/extract") ocr_text
    ok (extracted response)

abbrev trimmed_or_empty : Option Text → Text
trimmed_or_empty none = []
trimmed_or_empty (some t) = trim t

-- `OcrService.extractText`, of an image of any type.
unfoldable pub extract_text :
    {Image : Type 0} → Config → (Text → Image → Result (Option Text)) → Image → Result Text
extract_text config post image = do
  ocr_base_url ←
      required (config (codes "OCR_SERVICE_URL")) (codes "OCR_SERVICE_URL is not configured")
  text ← post (ocr_base_url ++ codes "/ocr") image
  ok (trimmed_or_empty text)
