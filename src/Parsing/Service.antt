-- ===== src/Parsing/Service.antt =====
-- `parse` of src/processing/parsing.service.ts.
pub mod Merging
use birr_track_backend.Base.{
  Bool, true, false, ◌&&◌, Option, Text, codes, is_some, ◌or_else◌, if◌then◌else◌,
}
use birr_track_backend.Base.Results.{Result, ok, err, ◌>>=◌}
use birr_track_backend.Js.Numbers.{JsNumber}
use birr_track_backend.Parsing.Fields.{Extracted, parse_with_regex}

pub record ParsedTransaction (Num : Type 0) : Type 0 where
  pub bank_name : Option Text
  pub amount : Option Num
  pub transaction_id : Option Text
  pub timestamp : Option Text
  pub confidence : Num
  pub used_llm : Bool

module _ {Num : Type 0} where
  -- `hasCriticalFields` and `mergedHasAllFields`: none of the four is null.
  unfoldable pub has_all_fields : Extracted Num → Bool
  has_all_fields e =
      is_some e.amount && (is_some e.transaction_id && (is_some e.timestamp && is_some e.bank_name))

  abbrev pub merge : Extracted Num → Extracted Num → Extracted Num
  merge regex llm = record {
    bank_name = regex.bank_name or_else llm.bank_name;
    amount = regex.amount or_else llm.amount;
    transaction_id = regex.transaction_id or_else llm.transaction_id;
    timestamp = regex.timestamp or_else llm.timestamp;
  }

  abbrev pub parsed : Extracted Num → Num → Bool → ParsedTransaction Num
  parsed e confidence used_llm = record {
    bank_name = e.bank_name;
    amount = e.amount;
    transaction_id = e.transaction_id;
    timestamp = e.timestamp;
    confidence = confidence;
    used_llm = used_llm;
  }

module _ {Num : Type 0} ⦃js : JsNumber Num⦄ where
  abbrev pub full_confidence : Num
  full_confidence = js.number_of (codes "0.92")

  abbrev pub merged_confidence : Num
  merged_confidence = js.number_of (codes "0.78")

  abbrev pub partial_confidence : Num
  partial_confidence = js.number_of (codes "0.55")

  abbrev merged_result : Extracted Num → ParsedTransaction Num
  merged_result merged =
      if has_all_fields merged
      then parsed merged merged_confidence true
      else parsed merged partial_confidence true

  -- `llm` is `LlmService.extractFields`, which may throw.
  unfoldable pub parse : (Text → Result (Extracted Num)) → Text → Result (ParsedTransaction Num)
  parse llm ocr_text =
      let regex_parsed = parse_with_regex ocr_text in
      if has_all_fields regex_parsed
      then ok (parsed regex_parsed full_confidence false)
      else do llm_parsed ← llm ocr_text; ok (merged_result (merge regex_parsed llm_parsed))
