-- ===== src/Parsing/Fields/Sound.antt =====
-- What the fields of `parseWithRegex` are, whatever the text.
use mathlib.Core.List.{append_assoc}
use birr_track_backend.Base.{
  IsPiece, ℕ, zero, suc, ◌≤◌, ◌≡◌, inl, inr, refl, sym, ap, subst, ◌∙◌, Bool, true, not, Option,
  none, some, [], ◌∷◌, ◌++◌, arith, Text, ◌>>=◌, ◌==◌, if◌then◌else◌, keep-append, ==_iff, length,
  length-append, All, All-append, is_digit, Bool-cases, Option-cases,
}
use birr_track_backend.Js.Numbers.{JsNumber}
use birr_track_backend.Regex.{one, seq, alt, rep, match_text, capture}
use birr_track_backend.Regex.Language.{Power, Lang}
use birr_track_backend.Regex.Sound.{match_text_sound, capture_sound}
use birr_track_backend.Parsing.Patterns.{
  exactly, digits, star, fraction, amount_regex, amount_body, transaction_id_regex, id_body,
  is_id_unit,
}
use birr_track_backend.Parsing.Fields.{remove_commas, extract_transaction_id, extract_amount}

-- A run of one class: that many units, all of the class.
Power-one :
    (p : ℕ → Bool) (n : ℕ) (w : Text)
    → Power (Lang (one p)) n w
    → (length w ≡ n) × All (λ c. p c ≡ true) w
Power-one p zero w h = rw h (omega arith)
Power-one p (suc n) w (u, v, e, (c, f, g), more) =
    let (len, all) = Power-one p n v more in
    let whole : w ≡ c ∷ v = e ∙ ap (λ z. z ++ v) f in rw whole (ap suc len, (g, all))

-- What `[A-Za-z0-9-]{6,}` takes.
pub record IsTransactionId (text w : Text) : Type 0 where
  pub long_enough : 6 ≤ length w
  pub units : All (λ c. is_id_unit c ≡ true) w
  pub piece : IsPiece text w

id_body-IsTransactionId : (text w : Text) → Lang id_body w → IsPiece text w → IsTransactionId text w
id_body-IsTransactionId text w (n, least, _, power) piece =
    let (len, units) = Power-one is_id_unit n w power in
    record { long_enough = omega arith; units = units; piece = piece }

-- A transaction id that is read from a receipt has six units or more, each a letter, a digit or a
-- dash, and stands in the text as it is.
pub extract_transaction_id-IsTransactionId :
    (text w : Text) → extract_transaction_id text ≡ some w → IsTransactionId text w
unfolding extract_transaction_id transaction_id_regex
extract_transaction_id-IsTransactionId text w e =
    elim (Option-cases (match_text transaction_id_regex text)) [
      | inl missed ↦ absurd (cc (rw missed at e))
      | inr (m, found) ↦
          let P : ℕ → Text → Type 0 = λ _ v. IsTransactionId text v in
          let sound =
            match_text_sound transaction_id_regex text P (omega arith)
              (search (id_body-IsTransactionId text, tt)) m found in
          capture_sound P 1 m.caps w sound.captured (rw found at e)
    ]

-- A decimal with one or two places, as `Number` reads it.
pub record IsDecimal (w : Text) : Type 0 where
  pub whole : Text
  pub places : Text
  pub split : w ≡ whole ++ b'.' ∷ places
  pub whole_digits : All (λ c. is_digit c ≡ true) whole
  pub whole_some : 1 ≤ length whole
  pub places_digits : All (λ c. is_digit c ≡ true) places
  pub places_range : (1 ≤ length places) × (length places ≤ 2)

digit_stays : (c : ℕ) → is_digit c ≡ true → not (c == b',') ≡ true
digit_stays c h = ground arith

digits_stay : (w : Text) → All (λ c. is_digit c ≡ true) w → remove_commas w ≡ w
unfolding remove_commas
digits_stay [] h = refl
digits_stay (c ∷ w) h = rw (digit_stays c h.0) (ap (λ z. c ∷ z) (digits_stay w h.1))

remove_commas-append : (u v : Text) → remove_commas (u ++ v) ≡ remove_commas u ++ remove_commas v
unfolding remove_commas
remove_commas-append u v = keep-append _ u v

-- `(?:,[0-9]{3})*` with its commas removed.
groups_of_three :
    (n : ℕ) (w : Text)
    → Power (Lang (seq (exactly b',') (digits 3 3))) n w
    → All (λ c. is_digit c ≡ true) (remove_commas w)
groups_of_three zero w h = rw h (unfold remove_commas in tt)
groups_of_three (suc n) w (u, v, e, (comma, three, f, (c, g, is_comma), (k, _, _, power)), more) =
    let (_, all) = Power-one is_digit k three power in
    let gone : remove_commas comma ≡ [] = rw g (unfold remove_commas in rw is_comma) in
    let here : remove_commas u ≡ three =
      rw (f, remove_commas-append comma three, gone, digits_stay three all) in
    rw (e, remove_commas-append u v, here)
      (All-append _ three (remove_commas v) (groups_of_three n v more) all)

-- `[0-9]{1,3}(?:,[0-9]{3})*|[0-9]+`, in front of the fraction.
whole_number :
    (u : Text)
    → Lang
        (alt
          (seq (digits 1 3) (star (seq (exactly b',') (digits 3 3))))
          (rep 1 none (one is_digit)))
        u
    → All (λ c. is_digit c ≡ true) (remove_commas u) × (1 ≤ length (remove_commas u))
whole_number u (inl (a, b, e, (k, least, _, power), (n, _, _, groups))) =
    let (len, all) = Power-one is_digit k a power in
    let parts : remove_commas u ≡ a ++ remove_commas b =
      rw (e, remove_commas-append a b, digits_stay a all) in
    (
      rw parts (All-append _ a (remove_commas b) (groups_of_three n b groups) all),
      rw (parts, length-append) (omega arith),
    )
whole_number u (inr (k, least, _, power)) =
    let (len, all) = Power-one is_digit k u power in rw (digits_stay u all) (all, omega arith)

point_kept : (c : ℕ) → (c == b'.') ≡ true → c ≡ b'.'
point_kept c h = (==_iff c b'.').0 h

with_fraction :
    (w u f : Text)
    → w ≡ u ++ f
    → All (λ c. is_digit c ≡ true) (remove_commas u)
    → 1 ≤ length (remove_commas u)
    → Lang fraction f
    → IsDecimal (remove_commas w)
with_fraction w u f e all some_digit (point, places, g, (c, h, is_point), (k, least, most, power)) =
    let (len, places_all) = Power-one is_digit k places power in
    let f_is : f ≡ b'.' ∷ places =
      g ∙ (ap (λ z. z ++ places) h ∙ ap (λ z. z ∷ places) (point_kept c is_point)) in
    let f_stays : remove_commas f ≡ b'.' ∷ places = rw f_is (
      unfold remove_commas in
      ap (λ z. b'.' ∷ z) (unfold remove_commas in digits_stay places places_all)) in
    record {
      whole = remove_commas u;
      places = places;
      split = rw (e, remove_commas-append u f, f_stays);
      whole_digits = all;
      whole_some = some_digit;
      places_digits = places_all;
      places_range = (omega arith, omega arith);
    }

amount_body-IsDecimal : (w : Text) → Lang amount_body w → IsDecimal (remove_commas w)
amount_body-IsDecimal w (inl (a, r, e, la, (b, f, e', lb, lf))) =
    let (all, some_digit) = whole_number (a ++ b) (inl (a, b, refl, la, lb)) in
    with_fraction w (a ++ b) f (e ∙ (ap (λ z. a ++ z) e' ∙ sym (append_assoc a b f))) all some_digit
      lf
amount_body-IsDecimal w (inr (u, f, e, lu, lf)) =
    let (all, some_digit) = whole_number u (inr lu) in with_fraction w u f e all some_digit lf

-- `w` stands in the text, and without its commas it is a decimal.
pub record IsAmount (text w : Text) : Type 0 where
  pub piece : IsPiece text w
  pub decimal : IsDecimal (remove_commas w)

module _ {Num : Type 0} ⦃js : JsNumber Num⦄ where
  finite_number :
      (o : Option Text) (amount : Num)
      → (o >>= λ w.
          let n = js.number_of (remove_commas w) in if js.is_finite n then some n else none)
        ≡ some amount
      → (w : Text) × (o ≡ some w)
        × (js.number_of (remove_commas w) ≡ amount)
        × (js.is_finite amount ≡ true)
  finite_number none amount e = absurd (cc)
  finite_number (some w) amount e =
      elim (Bool-cases (js.is_finite (js.number_of (remove_commas w)))) [
        | inl finite ↦
            let same : js.number_of (remove_commas w) ≡ amount = ground arith in
            (w, refl, same, subst (λ n. js.is_finite n ≡ true) same finite)
        | inr infinite ↦ absurd (cc (rw infinite at e))
      ]

  -- An amount that is read from a receipt is finite, and it is the number of a piece of the text that
  -- is a decimal with one or two places once its commas are gone.
  pub extract_amount-IsAmount :
      (text : Text) (amount : Num)
      → extract_amount text ≡ some amount
      → (w : Text) × IsAmount text w
        × (js.number_of (remove_commas w) ≡ amount)
        × (js.is_finite amount ≡ true)
  unfolding extract_amount amount_regex
  extract_amount-IsAmount text amount e = elim (Option-cases (match_text amount_regex text)) [
    | inl missed ↦ absurd (cc (rw missed at e))
    | inr (m, found) ↦
        let P : ℕ → Text → Type 0 = λ _ v. IsAmount text v in
        let body : (v : Text) → Lang amount_body v → IsPiece text v → IsAmount text v =
          λ v l p. record { piece = p; decimal = amount_body-IsDecimal v l } in
        let sound =
          match_text_sound amount_regex text P (omega arith) (search (body, tt)) m found in
        let (w, captured, same, finite) = finite_number (capture 1 m.caps) amount (rw found at e) in
        (w, capture_sound P 1 m.caps w sound.captured captured, same, finite)
  ]
