-- ===== src/Regex.antt =====
-- ECMAScript's backtracking matcher, for the patterns that parsing.service.ts writes. A state is
-- what the specification calls one: the end index (here the text that is left, and the unit before
-- it) and the captures. Each operator takes the continuation `k` of the rest of the pattern.
-- No pattern of the program has a capture under a quantifier that can run twice, so the reset of
-- captures in a repetition is left out.
pub mod Language
pub mod Taking
pub mod Sound
pub mod Steps
pub mod Missing
use birr_track_backend.Base.{
  ℕ, zero, suc, ◌+◌, ◌-◌, Bool, true, false, not, ◌&&◌, ◌||◌, Option, none, some, List, [], ◌∷◌,
  Text, ltb, leb, ◌==◌, if◌then◌else◌, is_digit, length, take,
}

pub data Regex : Type 0 where
  eps : Regex
  one : (ℕ → Bool) → Regex
  seq alt : Regex → Regex → Regex
  -- A greedy quantifier `{min,max}`.
  rep : ℕ → Option ℕ → Regex → Regex
  group : ℕ → Regex → Regex
  boundary : Regex

pub record State : Type 0 where
  pub prev : Option ℕ
  pub rest : Text
  pub caps : List (ℕ × Text)

abbrev pub Cont : Type 0
Cont = State → Option State

-- `\w`.
is_word : ℕ → Bool
is_word c =
    is_digit c || ((leb b'A' c && leb c b'Z') || ((leb b'a' c && leb c b'z') || (c == b'_')))

is_word_at : Option ℕ → Bool
unfolding is_word
is_word_at none = false
is_word_at (some c) = is_word c

abbrev next_unit : Text → Option ℕ
next_unit [] = none
next_unit (c ∷ s) = some c

at_boundary : State → Bool
unfolding is_word_at
at_boundary x =
    if is_word_at x.prev then not (is_word_at (next_unit x.rest)) else is_word_at (next_unit x.rest)

pub run_one : (ℕ → Bool) → Cont → Option ℕ → Text → List (ℕ × Text) → Option State
run_one p k prev [] caps = none
run_one p k prev (c ∷ s) caps = elim (p c) [
  | true ↦ k (record { prev = some c; rest = s; caps = caps })
  | false ↦ none
]

-- After a round from `x`: an optional round that took nothing fails, else the matcher goes on.
go_on : ℕ → State → Cont → Cont
go_on lo x next y = elim ((lo == 0) && (length y.rest == length x.rest)) [
  | true ↦ none
  | false ↦ next y
]

-- `RepeatMatcher`, with the matcher `m` of the body and at most `fuel` rounds.
pub run_rep : (Cont → Cont) → ℕ → ℕ → Cont → Cont
unfolding go_on
run_rep m zero lo k x = k x
run_rep m (suc fuel) lo k x = elim (m (go_on lo x (run_rep m fuel (lo - 1) k)) x) [
  | some t ↦ some t
  | none ↦ if lo == 0 then k x else none
]

-- The rounds of an unbounded quantifier: past `lo` rounds each takes a unit at least.
pub rounds : ℕ → Option ℕ → Text → ℕ
rounds lo none s = lo + length s
rounds lo (some hi) s = hi

-- What lies between two states, the second of which is further on.
pub between : State → State → Text
between x y = take (length x.rest - length y.rest) x.rest

pub run : Regex → Cont → Cont
unfolding run_one run_rep rounds between at_boundary
run eps k x = k x
run (one p) k x = run_one p k x.prev x.rest x.caps
run (seq a b) k x = run a (run b k) x
run (alt a b) k x = elim (run a k x) [ some t ↦ some t | none ↦ run b k x ]
run (rep lo hi a) k x = run_rep (run a) (rounds lo hi x.rest) lo k x
run (group i a) k x = run a (λ y. k (record y { caps = (i, between x y) ∷ y.caps })) x
run boundary k x = elim (at_boundary x) [ true ↦ k x | false ↦ none ]

-- `text.match(re)`: the leftmost match.
pub match_from : Regex → Option ℕ → Text → Option State
unfolding run
match_from r prev [] = run r some (record { prev = prev; rest = []; caps = [] })
match_from r prev (c ∷ s) = elim (run r some (record { prev = prev; rest = c ∷ s; caps = [] })) [
  | some t ↦ some t
  | none ↦ match_from r (some c) s
]

unfoldable pub match_text : Regex → Text → Option State
unfolding match_from
match_text r s = match_from r none s

-- `m[i]`: `none` is undefined.
unfoldable pub capture : ℕ → List (ℕ × Text) → Option Text
capture i [] = none
capture i ((j, w) ∷ caps) = let rest = capture i caps in if j == i then some w else rest
