-- ===== src/Settings/Origins.antt =====
-- How the origins that CORS allows are read from one text.
use birr_track_backend.Base.{
  ℕ, ◌≡◌, ◌≢◌, inl, inr, refl, ap, sym, subst, ◌∙◌, ◌==◌, ==_iff, List, [], ◌∷◌, ◌++◌, Text, All,
  Bool-cases,
}
use birr_track_backend.Settings.{onto_first, split_comma}

-- The parts with commas between them.
abbrev pub join_comma : List Text → Text
join_comma [] = []
join_comma (p ∷ []) = p
join_comma (p ∷ q ∷ ps) = p ++ b',' ∷ join_comma (q ∷ ps)

abbrev pub HasNoComma : Text → Type 0
HasNoComma s = All (λ c. c ≢ b',') s

pub record IsSplit (s : Text) (parts : List Text) : Type 0 where
  pub joined : join_comma parts ≡ s
  pub no_commas : All HasNoComma parts
  pub some_part : parts ≢ []

after_comma : (s : Text) (parts : List Text) → IsSplit s parts → IsSplit (b',' ∷ s) ([] ∷ parts)
after_comma s [] h = absurd (h.some_part refl)
after_comma s (p ∷ ps) h = record {
  joined = ap (λ z. b',' ∷ z) h.joined;
  no_commas = (tt, h.no_commas);
  some_part = λ e. cc;
}

joined_onto :
    (c : ℕ) (p : Text) (ps : List Text) → join_comma ((c ∷ p) ∷ ps) ≡ c ∷ join_comma (p ∷ ps)
joined_onto c p [] = refl
joined_onto c p (q ∷ ps) = refl

after_unit :
    (c : ℕ) (s : Text) (parts : List Text)
    → c ≢ b','
    → IsSplit s parts
    → IsSplit (c ∷ s) (onto_first c parts)
after_unit c s [] other h = absurd (h.some_part refl)
after_unit c s (p ∷ ps) other h = record {
  joined = joined_onto c p ps ∙ ap (λ z. c ∷ z) h.joined;
  no_commas = ((other, h.no_commas.0), h.no_commas.1);
  some_part = λ e. cc;
}

-- The parts of a text hold no comma, and with commas between them they are the text: an origin is
-- taken as it is written, with the blanks around it.
pub split_comma-IsSplit : (s : Text) → IsSplit s (split_comma s)
unfolding split_comma
split_comma-IsSplit [] = record { joined = refl; no_commas = (tt, tt); some_part = λ e. cc }
split_comma-IsSplit (c ∷ s) = elim (Bool-cases (c == b',')) [
  | inl comma ↦
      let is_comma = (==_iff c b',').0 comma in
      rw comma (
        subst (λ z. IsSplit (z ∷ s) ([] ∷ split_comma s)) (sym is_comma)
          (after_comma s (split_comma s) (split_comma-IsSplit s)))
  | inr other ↦
      rw other
        (after_unit c s (split_comma s) (λ e. cc ((==_iff c b',').1 e)) (split_comma-IsSplit s))
]
