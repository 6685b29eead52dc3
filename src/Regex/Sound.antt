-- ===== src/Regex/Sound.antt =====
-- What a match establishes: it took a piece of the text in the pattern's language, and each capture
-- is a piece in the language of its group.
use mathlib.Core.List.{append_assoc}
use birr_track_backend.Base.{
  IsPiece, ℕ, ◌≡◌, refl, sym, ap, subst, ◌∙◌, inl, inr, Option, none, some, List, [], ◌∷◌, ◌++◌,
  arith, Text, All, ◌==◌, Bool-cases, Option-cases,
}
use birr_track_backend.Regex.{
  Regex, eps, one, seq, alt, rep, group, boundary, State, rounds, between, at_boundary, run,
  match_from, match_text, capture,
}
use birr_track_backend.Regex.Taking.{
  IsRest, Sound, Rounds, IsRest-append, run_rep-Sound, bounds_of_rounds, Within-of_rounds,
  between_word, run_one_sound, Took-nothing, Took-weaken,
}
use birr_track_backend.Regex.Language.{Lang, InOrder, Groups}

module _ (text : Text) (P : ℕ → Text → Type 0) where
  run-Sound : (r : Regex) → InOrder r → Groups text P r → Sound text P (Lang r) (run r)
  unfolding run
  run-Sound eps o g k x t c r e = Took-nothing text P (Lang eps) k x t refl c e
  run-Sound boundary o g k x t c r e = elim (Bool-cases (at_boundary x)) [
    | inl b ↦ Took-nothing text P (Lang boundary) k x t refl c (ground arith)
    | inr b ↦ absurd (ground arith)
  ]
  run-Sound (one p) o g k x t c r e = run_one_sound text P p k x.prev x.rest x.caps t c e
  run-Sound (seq a b) o g k x t c r e =
      let first = run-Sound a o.0 g.0 (run b k) x t c r e in
      let second =
        run-Sound b o.1 g.1 k first.after t first.captured
          (IsRest-append text P first.word first.after.rest first.split r) first.went_on in
      record {
        word = first.word ++ second.word;
        after = second.after;
        in_language = (first.word, second.word, refl, first.in_language, second.in_language);
        split =
            first.split
            ∙ (ap (λ z. first.word ++ z) second.split
                ∙ sym (append_assoc first.word second.word second.after.rest));
        captured = second.captured;
        went_on = second.went_on;
      }
  run-Sound (alt a b) o g k x t c r e = elim (Option-cases (run a k x)) [
    | inl missed ↦
        Took-weaken text P (Lang b) (Lang (alt a b)) k x t (λ w l. inr l)
          (run-Sound b o.1 g.1 k x t c r (ground arith))
    | inr (u, hit) ↦
        Took-weaken text P (Lang a) (Lang (alt a b)) k x t (λ w l. inl l)
          (run-Sound a o.0 g.0 k x t c r (ground arith))
  ]
  run-Sound (rep lo hi a) o g k x t c r e =
      Took-weaken text P (Rounds text P (Lang a) (rounds lo hi x.rest) lo) (Lang (rep lo hi a)) k x
        t (λ w (n, least, most, power). (n, least, Within-of_rounds lo hi x.rest n most, power))
        (run_rep-Sound text P (Lang a) (run a) (run-Sound a o.1 g) (rounds lo hi x.rest) lo
          (bounds_of_rounds lo hi x.rest o.0) k x t c r e)
  run-Sound (group i a) o g k x t c r e =
      let took =
        run-Sound a o g.0 (λ y. k (record y { caps = (i, between x y) ∷ y.caps })) x t c r e in
      record {
        word = took.word;
        after = record took.after { caps = (i, between x took.after) ∷ took.after.caps };
        in_language = took.in_language;
        split = took.split;
        captured = (
          subst (P i) (sym (between_word x took.after took.word took.split)) (
              g.1 took.word took.in_language
                (r.0, took.after.rest, r.1 ∙ ap (λ z. r.0 ++ z) took.split)),
          took.captured,
        );
        went_on = took.went_on;
      }

-- What a match of `r` in `text` establishes.
pub record Found (r : Regex) (text : Text) (P : ℕ → Text → Type 0) (t : State) : Type 0 where
  pub word : Text
  pub in_language : Lang r word
  pub piece : IsPiece text word
  pub captured : All (λ c. P c.0 c.1) t.caps

module _ (r : Regex) (text : Text) (P : ℕ → Text → Type 0) (o : InOrder r)
    (g : Groups text P r) where
  Found-at :
      (prev : Option ℕ) (s : Text) (t : State)
      → IsRest text P s
      → run r some (record { prev = prev; rest = s; caps = [] }) ≡ some t
      → Found r text P t
  Found-at prev s t rest e =
      let took =
        run-Sound text P r o g some (record { prev = prev; rest = s; caps = [] }) t tt rest e in
      let same : took.after ≡ t = cc (took.went_on) in
      record {
        word = took.word;
        in_language = took.in_language;
        piece = (rest.0, took.after.rest, rest.1 ∙ ap (λ z. rest.0 ++ z) took.split);
        captured = subst (λ (y : State). All (λ c. P c.0 c.1) y.caps) same took.captured;
      }

  match_from_sound :
      (prev : Option ℕ) (s : Text) (t : State)
      → IsRest text P s
      → match_from r prev s ≡ some t
      → Found r text P t
  unfolding match_from
  match_from_sound prev [] t rest e = Found-at prev [] t rest e
  match_from_sound prev (c ∷ s) t rest e =
      elim (Option-cases (run r some (record { prev = prev; rest = c ∷ s; caps = [] }))) [
        | inl missed ↦
            match_from_sound (some c) s t (IsRest-append text P (c ∷ []) s refl rest) (ground arith)
        | inr (u, hit) ↦ Found-at prev (c ∷ s) t rest (ground arith)
      ]

  pub match_text_sound : (t : State) → match_text r text ≡ some t → Found r text P t
  unfolding match_text
  match_text_sound t e = match_from_sound none text t ([], refl) e

pub capture_sound :
    (P : ℕ → Text → Type 0) (i : ℕ) (caps : List (ℕ × Text)) (w : Text)
    → All (λ c. P c.0 c.1) caps
    → capture i caps ≡ some w
    → P i w
unfolding capture
capture_sound P i [] w c e = absurd (cc)
capture_sound P i ((j, v) ∷ caps) w c e = elim (Bool-cases (j == i)) [
  | inl here ↦
      let index : j ≡ i = ground arith in
      let value : v ≡ w = ground arith in subst (λ n. P n w) index (subst (P j) value c.0)
  | inr later ↦ capture_sound P i caps w c.1 (ground arith)
]
