-- ===== src/Parsing/Fields.antt =====
-- `parseWithRegex` and `extractBankName` of src/processing/parsing.service.ts.
pub mod Sound
pub mod Banks
use birr_track_backend.Base.{
  ℕ, Bool, not, Option, none, some, List, [], ◌∷◌, ◌>>=◌, Text, codes, includes, ◌==◌,
  if◌then◌else◌, keep, find_first,
}
use birr_track_backend.Js.Numbers.{JsNumber}
use birr_track_backend.Regex.{match_text, capture}
use birr_track_backend.Parsing.Patterns.{amount_regex, transaction_id_regex}
use birr_track_backend.Parsing.Dates.{to_lower_case, extract_timestamp_from_text}

-- `BANK_NAMES`, in order.
abbrev pub bank_names : List Text
bank_names =
    codes "CBE"
    ∷ codes "Commercial Bank of Ethiopia"
    ∷ codes "Awash"
    ∷ codes "Abyssinia"
    ∷ codes "Dashen"
    ∷ codes "Hibret"
    ∷ codes "Telebirr"
    ∷ []

unfoldable pub extract_bank_name : Text → Option Text
extract_bank_name ocr_text =
    let normalized_text = to_lower_case ocr_text in
    find_first (λ bank. includes (to_lower_case bank) normalized_text) bank_names

-- `replaceAll(',', '')`.
unfoldable pub remove_commas : Text → Text
remove_commas s = keep (λ c. not (c == b',')) s

unfoldable pub extract_transaction_id : Text → Option Text
extract_transaction_id ocr_text = do m ← match_text transaction_id_regex ocr_text; capture 1 m.caps

-- The fields that a parser found, `null` where it found none.
pub record Extracted (Num : Type 0) : Type 0 where
  pub bank_name : Option Text
  pub amount : Option Num
  pub transaction_id : Option Text
  pub timestamp : Option Text

module _ {Num : Type 0} ⦃js : JsNumber Num⦄ where
  unfoldable pub extract_amount : Text → Option Num
  extract_amount ocr_text = do
    m ← match_text amount_regex ocr_text
    digits ← capture 1 m.caps
    let amount = js.number_of (remove_commas digits)
    if js.is_finite amount then some amount else none

  unfoldable pub parse_with_regex : Text → Extracted Num
  parse_with_regex ocr_text = record {
    bank_name = extract_bank_name ocr_text;
    amount = extract_amount ocr_text;
    transaction_id = extract_transaction_id ocr_text;
    timestamp = extract_timestamp_from_text ocr_text;
  }
