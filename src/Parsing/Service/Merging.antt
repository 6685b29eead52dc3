-- ===== src/Parsing/Service/Merging.antt =====
-- When the LLM is asked, what it may change, and what the confidence says.
use birr_track_backend.Base.{
  ◌≡◌, ◌≢◌, ◌↔◌, inl, inr, refl, subst, Bool, true, false, Option, none, some, arith, Text, codes,
  ◌or_else◌, Bool-cases,
}
use birr_track_backend.Base.Results.{Result, ok, err, ◌>>=◌, ok-injective, bind-eq-err}
use birr_track_backend.Js.Numbers.{JsNumber}
use birr_track_backend.Parsing.Fields.{Extracted, parse_with_regex}
use birr_track_backend.Parsing.Service.{
  ParsedTransaction, has_all_fields, merge, parsed, full_confidence, merged_result, parse,
}

-- A value that was found is never replaced.
abbrev pub Keeps {ℓ} : {A : Type ℓ} → Option A → Option A → Type ℓ
Keeps {A} old new = (a : A) → old ≡ some a → new ≡ some a

Keeps-or_else {ℓ} : {A : Type ℓ} (o p : Option A) → Keeps o (o or_else p)
Keeps-or_else o p a e = rw e

module _ {Num : Type 0} where
  -- Every field that `e` has, `p` has with the same value.
  pub record KeepsFields (e : Extracted Num) (p : ParsedTransaction Num) : Type 0 where
    pub bank_name : Keeps e.bank_name p.bank_name
    pub amount : Keeps e.amount p.amount
    pub transaction_id : Keeps e.transaction_id p.transaction_id
    pub timestamp : Keeps e.timestamp p.timestamp

  pub record IsComplete (p : ParsedTransaction Num) : Type 0 where
    pub bank_name : p.bank_name ≢ none
    pub amount : p.amount ≢ none
    pub transaction_id : p.transaction_id ≢ none
    pub timestamp : p.timestamp ≢ none

  has_all_fields_iff :
      (e : Extracted Num) (n : Num) (b : Bool)
      → (has_all_fields e ≡ true) ↔ IsComplete (parsed e n b)
  unfolding has_all_fields
  has_all_fields_iff e n b = ground arith

  parsed-KeepsFields : (e : Extracted Num) (n : Num) (b : Bool) → KeepsFields e (parsed e n b)
  parsed-KeepsFields e n b = record {
    bank_name = λ _ h. h;
    amount = λ _ h. h;
    transaction_id = λ _ h. h;
    timestamp = λ _ h. h;
  }

  merge-KeepsFields :
      (e l : Extracted Num) (n : Num) (b : Bool) → KeepsFields e (parsed (merge e l) n b)
  merge-KeepsFields e l n b = record {
    bank_name = Keeps-or_else e.bank_name l.bank_name;
    amount = Keeps-or_else e.amount l.amount;
    transaction_id = Keeps-or_else e.transaction_id l.transaction_id;
    timestamp = Keeps-or_else e.timestamp l.timestamp;
  }

module _ {Num : Type 0} where
  -- A result of what was found and, for what was not, of an answer of the LLM.
  pub record IsMerged (found answer : Extracted Num) (p : ParsedTransaction Num) : Type 0 where
    pub bank_name : p.bank_name ≡ (found.bank_name or_else answer.bank_name)
    pub amount : p.amount ≡ (found.amount or_else answer.amount)
    pub transaction_id : p.transaction_id ≡ (found.transaction_id or_else answer.transaction_id)
    pub timestamp : p.timestamp ≡ (found.timestamp or_else answer.timestamp)
    pub used_llm : p.used_llm ≡ true

  merge-IsMerged :
      (found answer : Extracted Num) (n : Num)
      → IsMerged found answer (parsed (merge found answer) n true)
  merge-IsMerged found answer n = record {
    bank_name = refl;
    amount = refl;
    transaction_id = refl;
    timestamp = refl;
    used_llm = refl;
  }

module _ {Num : Type 0} ⦃js : JsNumber Num⦄ where
  -- The fields of the regular expressions, as a result.
  abbrev pub regex_result : Text → ParsedTransaction Num
  regex_result text =
      let found : Extracted Num = parse_with_regex text in
      record {
        bank_name = found.bank_name;
        amount = found.amount;
        transaction_id = found.transaction_id;
        timestamp = found.timestamp;
        confidence = js.number_of (codes "0.92");
        used_llm = false;
      }

  -- What a successful `parse` returns: the fields of the regular expressions alone, or completed by
  -- an answer of the LLM.
  pub data Outcome (llm : Text → Result (Extracted Num)) (text : Text) (p : ParsedTransaction Num)
      : Type 0 where
    regex_only : IsComplete p → p ≡ regex_result text → Outcome llm text p
    completed :
        (answer : Extracted Num)
        → llm text ≡ ok answer
        → ¬ IsComplete (regex_result text)
        → IsComplete p
        → IsMerged (parse_with_regex text) answer p
        → p.confidence ≡ js.number_of (codes "0.78")
        → Outcome llm text p
    still_partial :
        (answer : Extracted Num)
        → llm text ≡ ok answer
        → ¬ IsComplete (regex_result text)
        → ¬ IsComplete p
        → IsMerged (parse_with_regex text) answer p
        → p.confidence ≡ js.number_of (codes "0.55")
        → Outcome llm text p

  module _ (llm : Text → Result (Extracted Num)) (text : Text) where
    abbrev found : Extracted Num
    found = parse_with_regex text

    not-IsComplete :
        (e : Extracted Num) (n : Num) (b : Bool)
        → has_all_fields e ≡ false
        → ¬ IsComplete (parsed e n b)
    not-IsComplete e n b h c = cc ((has_all_fields_iff e n b).1 c)

    merged-Outcome :
        (answer : Extracted Num)
        → llm text ≡ ok answer
        → has_all_fields found ≡ false
        → Outcome llm text (merged_result (merge found answer))
          × KeepsFields found (merged_result (merge found answer))
    merged-Outcome answer a missing = elim (Bool-cases (has_all_fields (merge found answer))) [
      | inl full ↦ rw full (
        completed answer a (not-IsComplete found _ _ missing) ((has_all_fields_iff _ _ _).0 full)
            (merge-IsMerged found answer _) refl,
        merge-KeepsFields found answer _ _,
      )
      | inr short ↦ rw short (
        still_partial answer a (not-IsComplete found _ _ missing) (not-IsComplete _ _ _ short)
            (merge-IsMerged found answer _) refl,
        merge-KeepsFields found answer _ _,
      )
    ]

    ask-Outcome :
        (r : Result (Extracted Num)) (p : ParsedTransaction Num)
        → llm text ≡ r
        → has_all_fields found ≡ false
        → (r >>= λ answer. ok (merged_result (merge found answer))) ≡ ok p
        → Outcome llm text p × KeepsFields found p
    ask-Outcome (err m) p a missing e = absurd (cc)
    ask-Outcome (ok answer) p a missing e =
        subst (λ q. Outcome llm text q × KeepsFields found q) (ok-injective e)
          (merged-Outcome answer a missing)

    -- If the regular expressions find all fields, they are the result, with the confidence 0.92,
    -- whatever the LLM would answer, and even if a call of it would throw. A parse that succeeds
    -- keeps what they found; if they left a field out, it is an answer of the LLM that completes
    -- the result, of which only what they left out is taken, and the confidence is 0.78 if all
    -- fields are there then, and 0.55 if not.
    pub parse-Outcome :
        (IsComplete (regex_result text) → parse llm text ≡ ok (regex_result text))
        × ((p : ParsedTransaction Num)
            → parse llm text ≡ ok p
            → Outcome llm text p × KeepsFields found p)
    unfolding parse
    parse-Outcome = (
      λ all_found. rw ((has_all_fields_iff found full_confidence false).1 all_found) refl,
      λ p e. elim (Bool-cases (has_all_fields found)) [
        | inl full ↦
            subst (λ q. Outcome llm text q × KeepsFields found q) (ok-injective (rw full at e))
              (
                regex_only ((has_all_fields_iff found _ _).0 full) refl,
                parsed-KeepsFields found _ _,
              )
        | inr missing ↦ ask-Outcome (llm text) p refl missing (rw missing at e)
      ],
    )

    -- Parsing fails only with the error of an LLM that was asked because a field was missing.
    pub parse-eq-err_iff :
        (m : Text)
        → (parse llm text ≡ err m) ↔ (¬ IsComplete (regex_result text) × (llm text ≡ err m))
    unfolding parse
    parse-eq-err_iff m = elim (Bool-cases (has_all_fields found)) [
      | inl full ↦
          rw full (λ e. absurd (cc), λ h. absurd (h.0 ((has_all_fields_iff found _ _).0 full)))
      | inr missing ↦
          rw missing
            (λ e. (not-IsComplete found _ _ missing, bind-eq-err (llm text) _ e), λ h. rw h.1)
    ]
