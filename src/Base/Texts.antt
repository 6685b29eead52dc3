-- ===== src/Base/Texts.antt =====
-- Texts as lists of UTF-16 code units, as JavaScript's strings are.
use Prim.Native.Nat.{ℕ, ◌+◌}
use Prim.Native.Char.{code}
use Prim.Native.String.{String}
use mathlib.Core.Path.{◌≡◌, refl, sym, ap, ap₂}
use mathlib.Core.Bool.{Bool, true, false, ◌&&◌, ◌||◌}
use mathlib.Core.Logic.{◌↔◌, inl, inr}
use mathlib.Core.List.{List, [], ◌∷◌, ◌++◌}
use native.Mathlib.Omega.{arith}
use birr_track_backend.Base.Tests.{leb, ◌==◌, if◌then◌else◌, ==_iff, and_true, Bool-cases}

abbrev pub Text : Type 0
Text = List ℕ

-- The code units of a literal: the program's are all ASCII.
abbrev pub codes : String → Text
codes String.[] = []
codes (String.◌∷◌ c s) = code c ∷ codes s

-- `a === b` on strings.
unfoldable pub text_eq : Text → Text → Bool
text_eq [] [] = true
text_eq (a ∷ s) (b ∷ t) = (a == b) && text_eq s t
text_eq _ _ = false

pub text_eq_refl : (s : Text) → text_eq s s ≡ true
unfolding text_eq
text_eq_refl [] = refl
text_eq_refl (a ∷ s) = ground (arith, text_eq_refl s)

pub eq_of_text_eq : (s t : Text) → text_eq s t ≡ true → s ≡ t
unfolding text_eq
eq_of_text_eq [] [] h = refl
eq_of_text_eq [] (b ∷ t) h = cc
eq_of_text_eq (a ∷ s) [] h = cc
eq_of_text_eq (a ∷ s) (b ∷ t) h =
    let both = and_true (a == b) (text_eq s t) h in
    ap₂ (λ x xs. x ∷ xs) ((==_iff a b).0 both.0) (eq_of_text_eq s t both.1)

pub text_eq_iff : (s t : Text) → (text_eq s t ≡ true) ↔ (s ≡ t)
text_eq_iff s t = (eq_of_text_eq s t, λ e. rw e (text_eq_refl t))

abbrev pub is_digit : ℕ → Bool
is_digit c = leb b'0' c && leb c b'9'

-- The lower case of an ASCII code unit; other units stay as they are.
abbrev pub ascii_lower : ℕ → ℕ
ascii_lower c = if leb b'A' c && leb c b'Z' then c + 32 else c

-- JavaScript's white space and line terminators: `\s`, and what `trim` removes.
unfoldable pub is_space : ℕ → Bool
is_space c =
    (leb 9 c && leb c 13)
    || ((c == 32)
        || ((c == 160)
            || ((c == 5760)
                || ((leb 8192 c && leb c 8202)
                    || ((c == 8232)
                        || ((c == 8233)
                            || ((c == 8239)
                                || ((c == 8287) || ((c == 12288) || (c == 65279))))))))))

-- `s.startsWith(t)`, with the needle first.
unfoldable pub starts_with : Text → Text → Bool
starts_with [] s = true
starts_with (a ∷ t) [] = false
starts_with (a ∷ t) (b ∷ s) = (a == b) && starts_with t s

-- `s.includes(t)`, with the needle first.
unfoldable pub includes : Text → Text → Bool
unfolding starts_with
includes t [] = starts_with t []
includes t (b ∷ s) = starts_with t (b ∷ s) || includes t s

-- `trimStart`, `trim`.
unfoldable pub trim_start : Text → Text
unfolding is_space
trim_start [] = []
trim_start (c ∷ s) = let rest = trim_start s in if is_space c then rest else c ∷ s

snoc_reverse : Text → Text → Text
snoc_reverse [] acc = acc
snoc_reverse (c ∷ s) acc = snoc_reverse s (c ∷ acc)

unfoldable pub trim : Text → Text
unfolding trim_start snoc_reverse
trim s = snoc_reverse (trim_start (snoc_reverse (trim_start s) [])) []

-- `w` is a contiguous piece of `text`.
abbrev pub IsPiece : Text → Text → Type 0
IsPiece text w = (pre : Text) × (post : Text) × (text ≡ pre ++ (w ++ post))

starts_with_sound : (t s : Text) → starts_with t s ≡ true → (post : Text) × (s ≡ t ++ post)
unfolding starts_with
starts_with_sound [] s h = (s, refl)
starts_with_sound (a ∷ t) [] h = absurd (cc)
starts_with_sound (a ∷ t) (b ∷ s) h =
    let both = and_true (a == b) (starts_with t s) h in
    let (post, e) = starts_with_sound t s both.1 in
    (post, ap₂ (λ x xs. x ∷ xs) (sym ((==_iff a b).0 both.0)) e)

pub includes_sound : (t s : Text) → includes t s ≡ true → IsPiece s t
unfolding includes
includes_sound t [] h = let (post, e) = starts_with_sound t [] h in ([], post, e)
includes_sound t (b ∷ s) h = elim (Bool-cases (starts_with t (b ∷ s))) [
  | inl here ↦ let (post, e) = starts_with_sound t (b ∷ s) here in ([], post, e)
  | inr later ↦
      let (pre, post, e) = includes_sound t s (rw later at h) in (b ∷ pre, post, ap (λ z. b ∷ z) e)
]

starts_with_complete : (t post : Text) → starts_with t (t ++ post) ≡ true
unfolding starts_with
starts_with_complete [] post = refl
starts_with_complete (a ∷ t) post = ground (arith, starts_with_complete t post)

includes_later : (t s : Text) (b : ℕ) → includes t s ≡ true → includes t (b ∷ s) ≡ true
unfolding includes
includes_later t s b h = ground (arith, h)

includes_start : (t s : Text) → starts_with t s ≡ true → includes t s ≡ true
unfolding includes
includes_start t [] h = h
includes_start t (b ∷ s) h = ground (arith, h)

includes_placed : (t pre post : Text) → includes t (pre ++ (t ++ post)) ≡ true
includes_placed t [] post = includes_start t (t ++ post) (starts_with_complete t post)
includes_placed t (b ∷ pre) post =
    includes_later t (pre ++ (t ++ post)) b (includes_placed t pre post)

pub includes_complete : (t s : Text) → includes t s ≡ false → ¬ IsPiece s t
includes_complete t s missing (pre, post, e) = cc (missing, e, includes_placed t pre post)
