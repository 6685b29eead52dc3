-- ===== src/Regex/Missing.antt =====
-- Texts in which a pattern matches nowhere, since they lack the units that it needs.
use birr_track_backend.Base.{
  ℕ, zero, suc, ◌≤◌, ◌≡◌, ◌⊎◌, inl, inr, subst, arith, Bool, true, false, none, List, [], ◌∷◌, ◌++◌,
  Text, All, Option-cases,
}
use birr_track_backend.Regex.{Regex, eps, one, seq, alt, rep, group, boundary, match_text}
use birr_track_backend.Regex.Language.{Lang, InOrder, Groups}
use birr_track_backend.Regex.Sound.{match_text_sound}

-- Each word of the pattern has a unit that passes the test.
abbrev pub Needs : (ℕ → Bool) → Regex → Type 0
Needs test (one p) = (c : ℕ) → p c ≡ true → test c ≡ true
Needs test (seq a b) = Needs test a ⊎ Needs test b
Needs test (alt a b) = Needs test a × Needs test b
Needs test (rep lo hi a) = (1 ≤ lo) × Needs test a
Needs test (group i a) = Needs test a
Needs test _ = ⊥

All-parts {ℓ κ} :
    {A : Type ℓ} (P : A → Type κ) (xs ys : List A) → All P (xs ++ ys) → All P xs × All P ys
All-parts P [] ys h = (tt, h)
All-parts P (x ∷ xs) ys h = let (a, b) = All-parts P xs ys h.1 in ((h.0, a), b)

module _ (test : ℕ → Bool) where
  abbrev pub Lacks : Text → Type 0
  Lacks w = All (λ c. test c ≡ false) w

  Lang-Lacks : (r : Regex) (w : Text) → Needs test r → Lang r w → Lacks w → ⊥
  Lang-Lacks eps w n l k = n
  Lang-Lacks boundary w n l k = n
  Lang-Lacks (one p) w n (c, is, h) k = let lack = (subst Lacks is k).0 in absurd (cc (n c h))
  Lang-Lacks (seq a b) w (inl n) (u, v, is, la, lb) k =
      Lang-Lacks a u n la (All-parts (λ c. test c ≡ false) u v (subst Lacks is k)).0
  Lang-Lacks (seq a b) w (inr n) (u, v, is, la, lb) k =
      Lang-Lacks b v n lb (All-parts (λ c. test c ≡ false) u v (subst Lacks is k)).1
  Lang-Lacks (alt a b) w n (inl l) k = Lang-Lacks a w n.0 l k
  Lang-Lacks (alt a b) w n (inr l) k = Lang-Lacks b w n.1 l k
  Lang-Lacks (rep lo hi a) w n (zero, least, most, power) k = absurd (omega (arith, n.0, least))
  Lang-Lacks (rep lo hi a) w n (suc m, least, most, (u, v, is, la, more)) k =
      Lang-Lacks a u n.1 la (All-parts (λ c. test c ≡ false) u v (subst Lacks is k)).0
  Lang-Lacks (group i a) w n l k = Lang-Lacks a w n l k

  -- A pattern does not match in a text without the units that it needs.
  pub match_text-none :
      (r : Regex) (text : Text)
      → InOrder r
      → Groups text (λ _ _. Unit) r
      → Needs test r
      → Lacks text
      → match_text r text ≡ none
  match_text-none r text order groups needs lacks = elim (Option-cases (match_text r text)) [
    | inl missed ↦ missed
    | inr (t, found) ↦
        let sound = match_text_sound r text (λ _ _. Unit) order groups t found in
        let (pre, post, split) = sound.piece in
        let inside =
          (All-parts (λ c. test c ≡ false) pre (sound.word ++ post) (subst Lacks split lacks)).1 in
        let own = (All-parts (λ c. test c ≡ false) sound.word post inside).0 in
        absurd (Lang-Lacks r sound.word needs sound.in_language own)
  ]
