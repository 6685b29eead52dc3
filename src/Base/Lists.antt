-- ===== src/Base/Lists.antt =====
-- Lists measured by native numbers, under the library's names, and predicates on lists.
use Prim.Native.Nat.{ℕ, zero, suc, ◌+◌, ◌≤◌}
use mathlib.Core.Path.{◌≡◌, refl, ap, subst}
use mathlib.Core.Bool.{Bool, true, false}
use mathlib.Core.List.{List, [], ◌∷◌, ◌++◌}
use mathlib.Core.Option.{Option, none, some}
use mathlib.Core.Logic.{inl, inr}
use native.Mathlib.Nat.{zero-add, suc-add}
use native.Mathlib.Omega.{arith}
use birr_track_backend.Base.Tests.{if◌then◌else◌, Bool-cases, ◌or_else◌, is_some}

module _ {ℓ} {A : Type ℓ} where
  abbrev pub length : List A → ℕ
  length [] = 0
  length (x ∷ xs) = suc (length xs)

  abbrev pub take : ℕ → List A → List A
  take zero xs = []
  take (suc n) [] = []
  take (suc n) (x ∷ xs) = x ∷ take n xs

  abbrev pub drop : ℕ → List A → List A
  drop zero xs = xs
  drop (suc n) [] = []
  drop (suc n) (x ∷ xs) = drop n xs

  -- The elements that pass a Boolean test, in order.
  abbrev pub keep : (A → Bool) → List A → List A
  keep p [] = []
  keep p (x ∷ xs) = let rest = keep p xs in if p x then x ∷ rest else rest

  -- `Array.prototype.find`.
  abbrev pub find_first : (A → Bool) → List A → Option A
  find_first p [] = none
  find_first p (x ∷ xs) = let rest = find_first p xs in if p x then some x else rest

  take_nil : (n : ℕ) → [] ≡ take n []
  take_nil zero = refl
  take_nil (suc n) = refl

  pub length-append : (xs ys : List A) → length (xs ++ ys) ≡ length xs + length ys
  length-append [] ys = omega arith
  length-append (x ∷ xs) ys = omega (arith, length-append xs ys)

  pub take-length-append : (xs ys : List A) → take (length xs) (xs ++ ys) ≡ xs
  take-length-append [] ys = refl
  take-length-append (x ∷ xs) ys = ap (λ t. x ∷ t) (take-length-append xs ys)

  pub length-take-le : (n : ℕ) (xs : List A) → length (take n xs) ≤ n
  length-take-le zero xs = omega arith
  length-take-le (suc n) [] = omega arith
  length-take-le (suc n) (x ∷ xs) = omega (arith, length-take-le n xs)

abbrev pub All {ℓ κ} : {A : Type ℓ} → (A → Type κ) → List A → Type κ
All P [] = Unit
All P (x ∷ xs) = P x × All P xs

pub All-append {ℓ κ} :
    {A : Type ℓ} (P : A → Type κ) (front back : List A)
    → All P back
    → All P front
    → All P (front ++ back)
All-append P [] back later now = later
All-append P (x ∷ front) back later now = (now.0, All-append P front back later now.1)

module _ {ℓ} {A : Type ℓ} where
  pub keep-append : (p : A → Bool) (xs ys : List A) → keep p (xs ++ ys) ≡ keep p xs ++ keep p ys
  keep-append p [] ys = refl
  keep-append p (x ∷ xs) ys = ground (arith, keep-append p xs ys)

  pub keep-All : (p : A → Bool) (xs : List A) → All (λ x. p x ≡ true) xs → keep p xs ≡ xs
  keep-All p [] h = refl
  keep-All p (x ∷ xs) h = rw h.0 (ap (λ z. x ∷ z) (keep-All p xs h.1))

  -- `x` is the first element of `xs` that passes the test.
  pub record IsFirst (p : A → Bool) (xs : List A) (x : A) : Type ℓ where
    pub before : List A
    pub after : List A
    pub split : xs ≡ before ++ x ∷ after
    pub passes : p x ≡ true
    pub none_before : All (λ y. p y ≡ false) before

  pub find_first_sound :
      (p : A → Bool) (xs : List A) (x : A) → find_first p xs ≡ some x → IsFirst p xs x
  find_first_sound p [] x e = absurd (cc)
  find_first_sound p (y ∷ ys) x e = elim (Bool-cases (p y)) [
    | inl here ↦
        let same : y ≡ x = ground arith in
        record {
          before = [];
          after = ys;
          split = ap (λ z. z ∷ ys) same;
          passes = subst (λ z. p z ≡ true) same here;
          none_before = tt;
        }
    | inr later ↦
        let r = find_first_sound p ys x (rw later at e) in
        record {
          before = y ∷ r.before;
          after = r.after;
          split = ap (λ z. y ∷ z) r.split;
          passes = r.passes;
          none_before = (later, r.none_before);
        }
  ]

  pub find_first-none :
      (p : A → Bool) (xs : List A) → find_first p xs ≡ none → All (λ x. p x ≡ false) xs
  find_first-none p [] e = tt
  find_first-none p (y ∷ ys) e = elim (Bool-cases (p y)) [
    | inl here ↦ absurd (cc (rw here at e))
    | inr later ↦ (later, find_first-none p ys (rw later at e))
  ]

  pub find_first-append :
      (p : A → Bool) (xs : List A) (y : A)
      → p y ≡ true
      → find_first p (xs ++ y ∷ []) ≡ (find_first p xs or_else some y)
  find_first-append p [] y h = rw h
  find_first-append p (x ∷ xs) y h = elim (Bool-cases (p x)) [
    | inl here ↦ rw here
    | inr later ↦ rw later (find_first-append p xs y h)
  ]

  pub take-add : (m n : ℕ) (xs : List A) → take (m + n) xs ≡ take m xs ++ take n (drop m xs)
  take-add zero n xs = rw zero-add
  take-add (suc m) n [] = rw suc-add (take_nil n)
  take-add (suc m) n (x ∷ xs) = rw suc-add (ap (λ z. x ∷ z) (take-add m n xs))

  pub take_all : (n : ℕ) (xs : List A) → length xs ≤ n → take n xs ≡ xs
  take_all zero [] h = refl
  take_all zero (x ∷ xs) h = absurd (omega arith)
  take_all (suc n) [] h = refl
  take_all (suc n) (x ∷ xs) h = ap (λ z. x ∷ z) (take_all n xs (omega arith))

  pub find_first-ne-none :
      (p : A → Bool) (xs ys : List A) (y : A)
      → p y ≡ true
      → is_some (find_first p (xs ++ y ∷ ys)) ≡ true
  find_first-ne-none p [] ys y h = rw h
  find_first-ne-none p (x ∷ xs) ys y h = elim (Bool-cases (p x)) [
    | inl here ↦ rw here
    | inr later ↦ rw later (find_first-ne-none p xs ys y h)
  ]
