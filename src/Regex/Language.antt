-- ===== src/Regex/Language.antt =====
-- The language of a pattern, apart from captures and word boundaries.
use birr_track_backend.Base.{
  ℕ, zero, suc, ◌≤◌, ◌≡◌, ◌⊎◌, true, Option, none, some, [], ◌∷◌, ◌++◌, Text, IsPiece,
}
use birr_track_backend.Regex.{Regex, eps, one, seq, alt, rep, group, boundary}

-- `n` words of `P`, one behind the other.
abbrev pub Power : (Text → Type 0) → ℕ → Text → Type 0
Power P zero w = w ≡ []
Power P (suc n) w = (u : Text) × (v : Text) × (w ≡ u ++ v) × P u × Power P n v

abbrev pub Within : ℕ → Option ℕ → Type 0
Within n none = Unit
Within n (some hi) = n ≤ hi

abbrev pub Lang : Regex → Text → Type 0
Lang eps w = w ≡ []
Lang (one p) w = (c : ℕ) × (w ≡ c ∷ []) × (p c ≡ true)
Lang (seq a b) w = (u : Text) × (v : Text) × (w ≡ u ++ v) × Lang a u × Lang b v
Lang (alt a b) w = Lang a w ⊎ Lang b w
Lang (rep lo hi a) w = (n : ℕ) × (lo ≤ n) × Within n hi × Power (Lang a) n w
Lang (group i a) w = Lang a w
Lang boundary w = w ≡ []

-- The quantifiers of a pattern are in order: `lo ≤ hi`.
abbrev pub InOrder : Regex → Type 0
InOrder (seq a b) = InOrder a × InOrder b
InOrder (alt a b) = InOrder a × InOrder b
InOrder (rep lo hi a) = Within lo hi × InOrder a
InOrder (group i a) = InOrder a
InOrder _ = Unit

module _ (text : Text) (P : ℕ → Text → Type 0) where
  -- Every word that group `i` can take satisfies `P i`.
  abbrev pub Groups : Regex → Type 0
  Groups (seq a b) = Groups a × Groups b
  Groups (alt a b) = Groups a × Groups b
  Groups (rep lo hi a) = Groups a
  Groups (group i a) = Groups a × ((w : Text) → Lang a w → IsPiece text w → P i w)
  Groups _ = Unit
