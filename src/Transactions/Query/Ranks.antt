-- ===== src/Transactions/Query/Ranks.antt =====
-- Listings by the ranks of their rows: how many rows are newer.
use mathlib.Core.List.{Perm, Perm-prop, Permᴰ}
use mathlib.Core.List.Perm
use mathlib.Core.Logic.{∥∥₁_elim}
use native.Mathlib.Nat.{ℕ_set, zero-add}
use birr_track_backend.Base.{
  ℕ, zero, suc, ◌+◌, ◌≡◌, inl, inr, refl, sym, ap, subst, ◌∙◌, Bool, true, false, ◌&&◌, List, [],
  ◌∷◌, arith, take, keep, ltb, All, Bool-cases, if◌then◌else◌,
}
use birr_track_backend.Base.Sums.{sum_by, sum_by-permuted}
use birr_track_backend.Js.Dates.{JsDate}
use birr_track_backend.Transactions.Entities.{Transaction}
use birr_track_backend.Transactions.Laws.{IsNewestFirst}

module _ {ℓ} {A : Type ℓ} where
  keep-permuted : (p : A → Bool) {xs ys : List A} → Permᴰ xs ys → Perm (keep p xs) (keep p ys)
  keep-permuted p Permᴰ.nil = Perm.rfl
  keep-permuted p (Permᴰ.cons {a = a} {b = b} {l₁ = l1} {l₂ = l2} e π) =
      subst (λ z. Perm (keep p (a ∷ l1)) (keep p (z ∷ l2))) e
        (elim (Bool-cases (p a)) [
          | inl here ↦ rw here (Perm.cons a (keep-permuted p π))
          | inr out ↦ rw out (keep-permuted p π)
        ])
  keep-permuted p (Permᴰ.swap {a = a} {b = b} {a' = c} {b' = d} {l = l} e f) =
      subst (λ z. Perm (keep p (a ∷ b ∷ l)) (keep p (c ∷ z ∷ l))) e
        (subst (λ z. Perm (keep p (a ∷ b ∷ l)) (keep p (z ∷ a ∷ l))) f
          (elim (Bool-cases (p a)) [
            | inl ha ↦ elim (Bool-cases (p b)) [
              | inl hb ↦ rw (ha, hb) (Perm.swap b a (keep p l))
              | inr hb ↦ rw (ha, hb) Perm.rfl
            ]
            | inr ha ↦ elim (Bool-cases (p b)) [
              | inl hb ↦ rw (ha, hb) Perm.rfl
              | inr hb ↦ rw (ha, hb) Perm.rfl
            ]
          ]))
  keep-permuted p (Permᴰ.trans π ρ) = Perm.trans (keep-permuted p π) (keep-permuted p ρ)

  pub keep-perm : (p : A → Bool) (xs ys : List A) → Perm xs ys → Perm (keep p xs) (keep p ys)
  keep-perm p xs ys π = ∥∥₁_elim π Perm-prop (keep-permuted p)

  keep_same : (p q : A → Bool) (xs : List A) → All (λ x. p x ≡ q x) xs → keep p xs ≡ keep q xs
  keep_same p q [] h = refl
  keep_same p q (x ∷ xs) h = rw (h.0, keep_same p q xs h.1) refl

  pub keep_nothing : (f : A → ℕ) (xs : List A) → keep (λ x. ltb (f x) 0) xs ≡ []
  keep_nothing f [] = refl
  keep_nothing f (x ∷ xs) =
      let out : ltb (f x) 0 ≡ false = ground arith in rw out (keep_nothing f xs)

module _ {Num Time : Type 0} ⦃dates : JsDate Time⦄ where
  -- 1 if two rows were created at one instant.
  abbrev tie : Transaction Num Time → Transaction Num Time → ℕ
  tie x y =
      if dates.le x.created_at y.created_at && dates.le y.created_at x.created_at then 1 else 0

  -- The pairs of rows that were created at one instant.
  abbrev pub ties : List (Transaction Num Time) → ℕ
  ties [] = 0
  ties (x ∷ xs) = sum_by (tie x) xs + ties xs

  tie_sym : (x y : Transaction Num Time) → tie x y ≡ tie y x
  tie_sym x y = ground arith

  ties-permuted : {xs ys : List (Transaction Num Time)} → Permᴰ xs ys → ties xs ≡ ties ys
  ties-permuted Permᴰ.nil = refl
  ties-permuted (Permᴰ.cons {a = a} {b = b} {l₁ = l1} {l₂ = l2} e π) =
      omega (arith, ap (λ z. sum_by (tie z) l2) e, sum_by-permuted (tie a) π, ties-permuted π)
  ties-permuted (Permᴰ.swap {a = a} {b = b} {a' = c} {b' = d} {l = l} e f) = omega (
    arith,
    tie_sym a b,
    ap (λ z. sum_by (tie z) l) e,
    ap (λ z. sum_by (tie z) l) f,
    ap (λ z. tie b z) e,
    ap (λ z. tie z d) f,
  )
  ties-permuted (Permᴰ.trans π ρ) = ties-permuted π ∙ ties-permuted ρ

  pub ties-perm : (xs ys : List (Transaction Num Time)) → Perm xs ys → ties xs ≡ ties ys
  ties-perm xs ys π = ∥∥₁_elim π (ℕ_set (ties xs) (ties ys)) ties-permuted

  -- 1 if `y` is newer than `z`.
  abbrev pub ahead : Transaction Num Time → Transaction Num Time → ℕ
  ahead z y = if dates.le y.created_at z.created_at then 0 else 1

  -- How many rows of a list are newer than a row.
  abbrev pub rank : List (Transaction Num Time) → Transaction Num Time → ℕ
  rank l z = sum_by (ahead z) l

  none_ahead :
      (x : Transaction Num Time) (xs : List (Transaction Num Time))
      → All (λ y. dates.le y.created_at x.created_at ≡ true) xs
      → rank xs x ≡ 0
  none_ahead x [] h = refl
  none_ahead x (y ∷ xs) h = rw (h.0, zero-add) (none_ahead x xs h.1)

  strictly :
      (x : Transaction Num Time) (xs : List (Transaction Num Time))
      → All (λ y. dates.le y.created_at x.created_at ≡ true) xs
      → sum_by (tie x) xs ≡ 0
      → All (λ y. dates.le x.created_at y.created_at ≡ false) xs
  strictly x [] h e = tt
  strictly x (y ∷ xs) h e = elim (Bool-cases (dates.le x.created_at y.created_at)) [
    | inl tied ↦ absurd (omega (arith, rw (tied, h.0) at e))
    | inr apart ↦ (apart, strictly x xs h.1 (omega (arith, e)))
  ]

  next_rank :
      (x : Transaction Num Time) (l xs : List (Transaction Num Time)) (n : ℕ)
      → All (λ y. dates.le x.created_at y.created_at ≡ false) xs
      → All (λ z. ltb (rank (x ∷ l) z) (suc n) ≡ ltb (rank l z) n) xs
  next_rank x l [] n h = tt
  next_rank x l (y ∷ xs) n h = (rw h.0 (ground arith), next_rank x l xs n h.1)

  -- The first rows of a listing without ties are those of a low rank.
  pub take-rank :
      (n : ℕ) (l : List (Transaction Num Time))
      → IsNewestFirst l
      → ties l ≡ 0
      → take n l ≡ keep (λ z. ltb (rank l z) n) l
  take-rank zero l h e = sym (keep_nothing (rank l) l)
  take-rank (suc n) [] h e = refl
  take-rank (suc n) (x ∷ xs) h e =
      let first : rank (x ∷ xs) x ≡ 0 =
        rw (dates.le_refl x.created_at, zero-add) (none_ahead x xs h.0) in
      let kept : ltb (rank (x ∷ xs) x) (suc n) ≡ true = ground (arith, first) in
      let apart = strictly x xs h.0 (omega (arith, e)) in
      rw kept (
        ap (λ r. x ∷ r)
          (take-rank n xs h.1 (omega (arith, e))
            ∙ sym (
                keep_same (λ z. ltb (rank (x ∷ xs) z) (suc n)) (λ z. ltb (rank xs z) n) xs
                  (next_rank x xs xs n apart))))
