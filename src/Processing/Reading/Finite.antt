-- ===== src/Processing/Reading/Finite.antt =====
-- The amounts of a receipt, from the text and from the LLM.
use birr_track_backend.Base.{
  ◌≡◌, inl, inr, sym, ap, subst, true, Option, none, some, Text, ◌or_else◌, Bool-cases,
}
use birr_track_backend.Base.Results.{Result, ok, Result-cases, >>=-eq-ok, ok-injective}
use birr_track_backend.Js.Numbers.{JsNumber}
use birr_track_backend.Parsing.Fields.{Extracted, extract_amount, parse_with_regex}
use birr_track_backend.Parsing.Fields.Sound.{extract_amount-IsAmount}
use birr_track_backend.Parsing.Service.{ParsedTransaction, parse}
use birr_track_backend.Parsing.Service.Merging.{
  Outcome, regex_only, completed, still_partial, parse-Outcome,
}
use birr_track_backend.Processing.Services.{
  Config, JsonAmount, number, not_number, LlmExtractResponse, finite_amount, extracted,
  extract_fields, extract_text, required,
}
use birr_track_backend.Processing.Files.{resolve_telegram_file_download_url}
use birr_track_backend.Processing.Reading.{ImageProcessingJobPayload, World, read_receipt}

module _ {Num : Type 0} ⦃js : JsNumber Num⦄ where
  -- An amount, where there is one, is no NaN and no infinity.
  abbrev pub IsFinite : Option Num → Type 0
  IsFinite o = (n : Num) → o ≡ some n → js.is_finite n ≡ true

  finite_amount-IsFinite : (a : JsonAmount Num) → IsFinite (finite_amount a)
  finite_amount-IsFinite not_number n e = absurd (cc)
  finite_amount-IsFinite (number m) n e = elim (Bool-cases (js.is_finite m)) [
    | inl finite ↦
        let same : some m ≡ some n = rw finite at e in
        subst (λ z. js.is_finite z ≡ true) (cc) finite
    | inr infinite ↦ absurd (cc (rw infinite at e))
  ]

  extract_fields-IsFinite :
      (config : Config) (post : Text → Text → Result (LlmExtractResponse Num)) (ocr_text : Text)
      (answer : Extracted Num)
      → extract_fields config post ocr_text ≡ ok answer
      → IsFinite answer.amount
  unfolding extract_fields extracted
  extract_fields-IsFinite config post ocr_text answer e =
      let (url, has_url, e1) = >>=-eq-ok (required (config _) _) _ e in
      let (response, posted, e2) = >>=-eq-ok (post _ ocr_text) _ e1 in
      subst (λ (z : Extracted Num). IsFinite z.amount) (ok-injective e2)
        (finite_amount-IsFinite response.amount)

  extract_amount-IsFinite : (text : Text) → IsFinite (extract_amount text)
  extract_amount-IsFinite text n e =
      let (w, is, number_is, finite) = extract_amount-IsAmount text n e in finite

  or_else-IsFinite : (a b : Option Num) → IsFinite a → IsFinite b → IsFinite (a or_else b)
  or_else-IsFinite none b fa fb = fb
  or_else-IsFinite (some a) b fa fb = fa

  parse-IsFinite :
      (llm : Text → Result (Extracted Num)) (text : Text) (p : ParsedTransaction Num)
      → ((answer : Extracted Num) → llm text ≡ ok answer → IsFinite answer.amount)
      → Outcome llm text p
      → IsFinite p.amount
  unfolding parse_with_regex
  parse-IsFinite llm text p finite (regex_only full is) =
      subst (λ (z : ParsedTransaction Num). IsFinite z.amount) (sym is)
        (extract_amount-IsFinite text)
  parse-IsFinite llm text p finite (completed answer asked missing full is _) =
      subst IsFinite (sym is.amount) (
        or_else-IsFinite (extract_amount text) answer.amount (extract_amount-IsFinite text)
          (finite answer asked))
  parse-IsFinite llm text p finite (still_partial answer asked missing short is _) =
      subst IsFinite (sym is.amount) (
        or_else-IsFinite (extract_amount text) answer.amount (extract_amount-IsFinite text)
          (finite answer asked))

  -- Whatever text the OCR service returns and whatever the LLM answers, an amount that a receipt is
  -- read with is finite.
  pub read_receipt-IsFinite :
      {Image : Type 0} (world : World Num Image) (payload : ImageProcessingJobPayload) (url : Text)
      (p : ParsedTransaction Num)
      → read_receipt world payload ≡ ok (url, p)
      → IsFinite p.amount
  unfolding read_receipt
  read_receipt-IsFinite world payload url p e =
      elim (Result-cases
        (resolve_telegram_file_download_url world.config world.get_file payload.file_id)) [
          | inr (m, h) ↦ absurd (cc (rw h at e))
          | inl (file_url, h) ↦ elim (Result-cases (world.download file_url)) [
            | inr (m, h1) ↦ absurd (cc (rw (h, h1) at e))
            | inl (image, h1) ↦
                elim (Result-cases (extract_text world.config world.post_ocr image)) [
                  | inr (m, h2) ↦ absurd (cc (rw (h, h1, h2) at e))
                  | inl (text, h2) ↦
                      elim (Result-cases
                        (parse (extract_fields world.config world.post_llm) text)) [
                          | inr (m, h3) ↦ absurd (cc (rw (h, h1, h2, h3) at e))
                          | inl (found, h3) ↦
                              let same : found ≡ p =
                                ap (λ (z : Text × ParsedTransaction Num). z.1)
                                  (ok-injective (rw (h, h1, h2, h3) at e)) in
                              subst (λ (z : ParsedTransaction Num). IsFinite z.amount) same
                                (parse-IsFinite (extract_fields world.config world.post_llm) text
                                  found (extract_fields-IsFinite world.config world.post_llm text)
                                  ((parse-Outcome (extract_fields world.config world.post_llm)
                                      text).1
                                    found h3).0)
                        ]
                ]
          ]
        ]
