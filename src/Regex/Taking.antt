-- ===== src/Regex/Taking.antt =====
-- How a matcher takes a word from a state and hands what is left to its continuation.
use mathlib.Core.List.{append_assoc}
use birr_track_backend.Base.{
  ℕ, zero, suc, ◌+◌, ◌-◌, ◌≤◌, ◌≡◌, refl, sym, ap, ◌∙◌, inl, inr, Bool, Option, none, some, List,
  [], ◌∷◌, ◌++◌, arith, Text, length, All, take-length-append, length-append, ◌==◌, Bool-cases,
  Option-cases,
}
use birr_track_backend.Regex.{one, State, Cont, run_one, go_on, run_rep, rounds, between}
use birr_track_backend.Regex.Language.{Power, Within, Lang}

pub bounds_of_rounds : (lo : ℕ) (hi : Option ℕ) (s : Text) → Within lo hi → lo ≤ rounds lo hi s
unfolding rounds
bounds_of_rounds lo none s h = omega arith
bounds_of_rounds lo (some hi) s h = h

pub Within-of_rounds :
    (lo : ℕ) (hi : Option ℕ) (s : Text) (n : ℕ) → n ≤ rounds lo hi s → Within n hi
unfolding rounds
Within-of_rounds lo none s n h = tt
Within-of_rounds lo (some hi) s n h = h

pub between_word : (x y : State) (w : Text) → x.rest ≡ w ++ y.rest → between x y ≡ w
unfolding between
between_word x y w e = rw e (
    rw length-append (
      rw (let n : length w + length y.rest - length y.rest ≡ length w = omega arith in n)
        (take-length-append w y.rest)))

module _ (text : Text) (P : ℕ → Text → Type 0) where
  abbrev pub Captured : List (ℕ × Text) → Type 0
  Captured caps = All (λ c. P c.0 c.1) caps

  abbrev pub IsRest : Text → Type 0
  IsRest s = (pre : Text) × (text ≡ pre ++ s)

  -- From `x` the pattern took a word of `L` and handed a state to the continuation.
  pub record Took (L : Text → Type 0) (k : Cont) (x t : State) : Type 0 where
    pub word : Text
    pub after : State
    pub in_language : L word
    pub split : x.rest ≡ word ++ after.rest
    pub captured : Captured after.caps
    pub went_on : k after ≡ some t

  abbrev pub Sound : (Text → Type 0) → (Cont → Cont) → Type 0
  Sound L m =
      (k : Cont) (x t : State) → Captured x.caps → IsRest x.rest → m k x ≡ some t → Took L k x t

  -- A stretch of at least `lo` and at most `fuel` words.
  abbrev pub Rounds : (Text → Type 0) → ℕ → ℕ → Text → Type 0
  Rounds L fuel lo w = (n : ℕ) × (lo ≤ n) × (n ≤ fuel) × Power L n w

  go_on_next :
      (lo : ℕ) (x : State) (next : Cont) (y t : State)
      → go_on lo x next y ≡ some t
      → next y ≡ some t
  unfolding go_on
  go_on_next lo x next y t e = ground arith

  pub IsRest-append : {s : Text} (w r : Text) → s ≡ w ++ r → IsRest s → IsRest r
  IsRest-append w r e (pre, h) = (pre ++ w, h ∙ (ap (λ z. pre ++ z) e ∙ sym (append_assoc pre w r)))

  join_round :
      (L : Text → Type 0) (fuel lo : ℕ) (k : Cont) (x t : State) {next : Cont}
      → (first : Took L next x t) → Took (Rounds L fuel (lo - 1)) k first.after t
      → Took (Rounds L (suc fuel) lo) k x t
  join_round L fuel lo k x t first more = record {
    word = first.word ++ more.word;
    after = more.after;
    in_language = (
      suc more.in_language.0,
      omega (arith, more.in_language.1),
      omega (arith, more.in_language.2),
      (first.word, more.word, refl, first.in_language, more.in_language.3),
    );
    split =
        first.split
        ∙ (ap (λ z. first.word ++ z) more.split
            ∙ sym (append_assoc first.word more.word more.after.rest));
    captured = more.captured;
    went_on = more.went_on;
  }

  pub run_rep-Sound :
      (L : Text → Type 0) (m : Cont → Cont)
      → Sound L m
      → (fuel lo : ℕ) → lo ≤ fuel
      → Sound (Rounds L fuel lo) (run_rep m fuel lo)
  unfolding run_rep
  run_rep-Sound L m h zero lo le k x t c r e = record {
    word = [];
    after = x;
    in_language = (0, omega arith, omega arith, refl);
    split = refl;
    captured = c;
    went_on = e;
  }
  run_rep-Sound L m h (suc fuel) lo le k x t c r e =
      elim (Option-cases (m (go_on lo x (run_rep m fuel (lo - 1) k)) x)) [
        | inl no_round ↦ elim (Bool-cases (lo == 0)) [
          | inl none_due ↦ record {
            word = [];
            after = x;
            in_language = (0, ground arith, omega arith, refl);
            split = refl;
            captured = c;
            went_on = ground arith;
          }
          | inr due ↦ absurd (ground arith)
        ]
        | inr (u, round) ↦
            let next : Cont = run_rep m fuel (lo - 1) k in
            let first = h (go_on lo x next) x t c r (ground arith) in
            join_round L fuel lo k x t first (
              run_rep-Sound L m h fuel (lo - 1) (omega arith) k first.after t first.captured
                (IsRest-append first.word first.after.rest first.split r)
                (go_on_next lo x next first.after t first.went_on))
      ]

  pub run_one_sound :
      (p : ℕ → Bool) (k : Cont) (prev : Option ℕ) (s : Text) (caps : List (ℕ × Text)) (t : State)
      → Captured caps
      → run_one p k prev s caps ≡ some t
      → Took (Lang (one p)) k (record { prev = prev; rest = s; caps = caps }) t
  unfolding run_one
  run_one_sound p k prev [] caps t c e = absurd (cc)
  run_one_sound p k prev (a ∷ s) caps t c e = elim (Bool-cases (p a)) [
    | inl fits ↦ record {
      word = a ∷ [];
      after = record { prev = some a; rest = s; caps = caps };
      in_language = (a, refl, fits);
      split = refl;
      captured = c;
      went_on = ground arith;
    }
    | inr not_fit ↦ absurd (ground arith)
  ]

  pub Took-nothing :
      (L : Text → Type 0) (k : Cont) (x t : State)
      → L []
      → Captured x.caps
      → k x ≡ some t
      → Took L k x t
  Took-nothing L k x t l c e = record {
    word = [];
    after = x;
    in_language = l;
    split = refl;
    captured = c;
    went_on = e;
  }

  -- A word of one language is one of a larger language.
  pub Took-weaken :
      (L L' : Text → Type 0) (k : Cont) (x t : State)
      → ((w : Text) → L w → L' w)
      → Took L k x t
      → Took L' k x t
  Took-weaken L L' k x t within took = record {
    word = took.word;
    after = took.after;
    in_language = within took.word took.in_language;
    split = took.split;
    captured = took.captured;
    went_on = took.went_on;
  }
