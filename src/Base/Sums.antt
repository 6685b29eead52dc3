-- ===== src/Base/Sums.antt =====
-- Sums over lists, which do not depend on the order.
use Prim.Native.Nat.{ℕ, ◌+◌}
use mathlib.Core.Logic.{∥∥₁_elim}
use mathlib.Core.Path.{◌≡◌, refl, sym, ap, ◌∙◌}
use mathlib.Core.List.{List, [], ◌∷◌, Perm, Permᴰ}
use native.Mathlib.Nat.{ℕ_set}
use native.Mathlib.Omega.{arith}
use birr_track_backend.Base.Lists.{length}

module _ {ℓ} {A : Type ℓ} (f : A → ℕ) where
  abbrev pub sum_by : List A → ℕ
  sum_by [] = 0
  sum_by (x ∷ xs) = f x + sum_by xs

  pub sum_by-permuted : {xs ys : List A} → Permᴰ xs ys → sum_by xs ≡ sum_by ys
  sum_by-permuted Permᴰ.nil = refl
  sum_by-permuted (Permᴰ.cons e p) = omega (arith, ap f e, sum_by-permuted p)
  sum_by-permuted (Permᴰ.swap e e') = omega (arith, ap f e, ap f e')
  sum_by-permuted (Permᴰ.trans p q) = sum_by-permuted p ∙ sum_by-permuted q

  pub sum_by-perm : (xs ys : List A) → Perm xs ys → sum_by xs ≡ sum_by ys
  sum_by-perm xs ys p = ∥∥₁_elim p (ℕ_set (sum_by xs) (sum_by ys)) sum_by-permuted

module _ {ℓ} {A : Type ℓ} where
  sum_by_one : (xs : List A) → sum_by (λ _. 1) xs ≡ length xs
  sum_by_one [] = refl
  sum_by_one (x ∷ xs) = omega (arith, sum_by_one xs)

  pub length-perm : (xs ys : List A) → Perm xs ys → length xs ≡ length ys
  length-perm xs ys p = sym (sum_by_one xs) ∙ (sum_by-perm (λ _. 1) xs ys p ∙ sum_by_one ys)
