-- ===== src/Base/Effects.antt =====
-- A call that changes a state and may throw. What it did before it threw stays done.
use mathlib.Core.Path.{◌≡◌, refl}
use mathlib.Core.Logic.{◌⊎◌, inl, inr}
use birr_track_backend.Base.Texts.{Text}
use birr_track_backend.Base.Results.{Result, ok, err}

abbrev pub M : Type 0 → Type 0 → Type 0
M S A = S → Result A × S

abbrev pub continue : {S A B : Type 0} → Result A × S → (A → M S B) → Result B × S
continue (ok a, s) k = k a s
continue (err e, s) k = (err e, s)

infixl 5 ◌>>=◌ ◌>>◌
abbrev pub ◌>>=◌ : {S A B : Type 0} → M S A → (A → M S B) → M S B
◌>>=◌ m k s = continue (m s) k

abbrev pub ◌>>◌ : {S A B : Type 0} → M S A → M S B → M S B
m >> k = m >>= λ _. k

abbrev pub pure : {S A : Type 0} → A → M S A
pure a s = (ok a, s)

abbrev pub throw : {S A : Type 0} → Text → M S A
throw e s = (err e, s)

-- A result that needs no state.
abbrev pub lift : {S A : Type 0} → Result A → M S A
lift r s = (r, s)

-- What a call has come to: a value or an error, with the state it left.
pub Call-cases :
    {S A : Type 0} (r : Result A × S)
    → ((a : A) × (s : S) × (r ≡ (ok a, s))) ⊎ ((e : Text) × (s : S) × (r ≡ (err e, s)))
Call-cases (ok a, s) = inl (a, s, refl)
Call-cases (err e, s) = inr (e, s, refl)

pub ok_pair :
    {S A : Type 0} {a b : A} {s t : S}
    → ◌≡◌ {A = Result A × S} (ok a, s) (ok b, t)
    → (a ≡ b) × (s ≡ t)
ok_pair e = (cc, cc)

pub err_pair :
    {S A : Type 0} {d e : Text} {s t : S}
    → ◌≡◌ {A = Result A × S} (err d, s) (err e, t)
    → (d ≡ e) × (s ≡ t)
err_pair e = (cc, cc)

pub ok-ne-err :
    {S A : Type 0} {a : A} {e : Text} {s t : S} → ◌≡◌ {A = Result A × S} (ok a, s) (err e, t) → ⊥
ok-ne-err h = cc

pub err-ne-ok :
    {S A : Type 0} {a : A} {e : Text} {s t : S} → ◌≡◌ {A = Result A × S} (err e, s) (ok a, t) → ⊥
err-ne-ok h = cc
