-- ===== src/Regex/Steps.antt =====
-- Steps of a match that goes through: if the rest of the pattern matches, so does the pattern.
use birr_track_backend.Base.{
  ℕ, suc, ◌+◌, ◌-◌, ◌≡◌, refl, arith, Bool, true, false, ◌&&◌, ◌==◌, Option, none, some, List, [],
  ◌∷◌, Text, is_digit, length,
}
use birr_track_backend.Regex.{
  Regex, one, seq, rep, group, boundary, State, Cont, is_word, is_word_at, at_boundary, run_one,
  go_on, run_rep, rounds, between, run, match_from, match_text,
}

module _ (p : ℕ → Bool) (k : Cont) (prev : Option ℕ) (s : Text) (caps : List (ℕ × Text))
    (t : State) where
  pub one_goes :
      (c : ℕ)
      → p c ≡ true
      → k (record { prev = some c; rest = s; caps = caps }) ≡ some t
      → run (one p) k (record { prev = prev; rest = c ∷ s; caps = caps }) ≡ some t
  unfolding run run_one
  one_goes c h e = rw (run, run_one, h) e

  shorter : (length s == suc (length s)) ≡ false
  shorter = ground arith

  -- `(\d{2})` and `(\d{1,2})` take two digits.
  pub two_go :
      (i c d : ℕ)
      → p c ≡ true
      → p d ≡ true
      → k (record { prev = some d; rest = s; caps = (i, c ∷ d ∷ []) ∷ caps }) ≡ some t
      → run
          (group i (rep 2 (some 2) (one p)))
          k
          (record { prev = prev; rest = c ∷ d ∷ s; caps = caps })
        ≡ some t
  unfolding run run_one run_rep go_on rounds between
  two_go i c d hc hd e =
      let taken : suc (suc (length s)) - length s ≡ 2 = omega arith in
      rw (run, run_rep, go_on, run_one, hc, hd, taken, e) refl

  -- `(\d{1,2})` takes two digits where there are two.
  pub one_or_two_go :
      (i c d : ℕ)
      → p c ≡ true
      → p d ≡ true
      → k (record { prev = some d; rest = s; caps = (i, c ∷ d ∷ []) ∷ caps }) ≡ some t
      → run
          (group i (rep 1 (some 2) (one p)))
          k
          (record { prev = prev; rest = c ∷ d ∷ s; caps = caps })
        ≡ some t
  unfolding run run_one run_rep go_on rounds between
  one_or_two_go i c d hc hd e =
      let taken : suc (suc (length s)) - length s ≡ 2 = omega arith in
      rw (run, run_rep, go_on, run_one, hc, hd, shorter, taken, e) refl

  -- `(\d{4})`.
  pub four_go :
      (i a b c d : ℕ)
      → p a ≡ true
      → p b ≡ true
      → p c ≡ true
      → p d ≡ true
      → k (record { prev = some d; rest = s; caps = (i, a ∷ b ∷ c ∷ d ∷ []) ∷ caps }) ≡ some t
      → run
          (group i (rep 4 (some 4) (one p)))
          k
          (record { prev = prev; rest = a ∷ b ∷ c ∷ d ∷ s; caps = caps })
        ≡ some t
  unfolding run run_one run_rep go_on rounds between
  four_go i a b c d ha hb hc hd e =
      let taken : suc (suc (suc (suc (length s)))) - length s ≡ 4 = omega arith in
      rw (run, run_rep, go_on, run_one, ha, hb, hc, hd, taken, e) refl

  -- `\s+` before a unit that is no space.
  pub separator_goes :
      (c d : ℕ)
      → p c ≡ true
      → p d ≡ false
      → k (record { prev = some c; rest = d ∷ s; caps = caps }) ≡ some t
      → run (rep 1 none (one p)) k (record { prev = prev; rest = c ∷ d ∷ s; caps = caps }) ≡ some t
  unfolding run run_one run_rep go_on rounds
  separator_goes c d hc hd e =
      let enough : 1 + suc (suc (length s)) ≡ suc (suc (suc (length s))) = omega arith in
      rw (run, rounds, enough, run_rep, go_on, run_one, hc, hd, e) refl

first_of :
    (o other : Option State) (t : State)
    → o ≡ some t
    → (elim o [ some u ↦ some u | none ↦ other ]) ≡ some t
first_of o other t e = rw e refl

module _ (r : Regex) (k : Cont) (x t : State) where
  -- What is left after an optional part that takes something.
  abbrev pub after_optional : Cont
  after_optional y = elim ((0 == 0) && (length y.rest == length x.rest)) [
    | true ↦ none
    | false ↦ k y
  ]

  pub optional_goes : run r after_optional x ≡ some t → run (rep 0 (some 1) r) k x ≡ some t
  unfolding run run_rep go_on rounds
  optional_goes e = first_of _ (k x) t e

module _ (k : Cont) (prev : Option ℕ) (caps : List (ℕ × Text)) where
  pub boundary_before :
      (c : ℕ) (s : Text)
      → is_digit c ≡ true
      → run boundary k (record { prev = none; rest = c ∷ s; caps = caps })
        ≡ k (record { prev = none; rest = c ∷ s; caps = caps })
  unfolding run at_boundary is_word_at is_word
  boundary_before c s h = ground arith

  pub boundary_after :
      (c : ℕ)
      → is_digit c ≡ true
      → run boundary k (record { prev = some c; rest = []; caps = caps })
        ≡ k (record { prev = some c; rest = []; caps = caps })
  unfolding run at_boundary is_word_at is_word
  boundary_after c h = ground arith

pub seq_goes :
    (a b : Regex) (k : Cont) (x t : State) → run a (run b k) x ≡ some t → run (seq a b) k x ≡ some t
unfolding run
seq_goes a b k x t e = e

pub match_text_goes :
    (r : Regex) (c : ℕ) (s : Text) (t : State)
    → run r some (record { prev = none; rest = c ∷ s; caps = [] }) ≡ some t
    → match_text r (c ∷ s) ≡ some t
unfolding match_text match_from
match_text_goes r c s t e = first_of _ (match_from r (some c) s) t e
