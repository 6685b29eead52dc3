-- ===== src/Scripts/SmokeTest/Ending.antt =====
-- That the smoke test ends, and what it has seen when it passes.
use birr_track_backend.Base.{
  ℕ, zero, suc, ◌+◌, ◌*◌, ◌≤◌, ◌<◌, ◌≡◌, ◌⊎◌, inl, inr, refl, arith, false, Option, some, Text,
  Bool-cases,
}
use birr_track_backend.Base.Results.{Result, ok, err}
use birr_track_backend.Telegram.Service.{Context}
use birr_track_backend.Scripts.SmokeSettings.{
  Number, not_a_number, negative, natural, Readings, health_poll_interval_ms, is_healthy, gives_up,
}
use birr_track_backend.Scripts.SmokeTest.{Instance, Run, and_then, wait_for_health}

-- At most `n` milliseconds.
abbrev pub IsAtMost : ℕ → Number → Type 0
IsAtMost n not_a_number = ⊥
IsAtMost n negative = Unit
IsAtMost n (natural k) = k ≤ n

module _ {S Summary : Type 0} (app : Instance S Summary) (clock : S → ℕ) where
  -- A clock that does not go back, and a pause that takes its time.
  pub record IsClock : Type 0 where
    pub now_read :
        (s : S) → (clock s ≤ (app.date_now s).0) × ((app.date_now s).0 ≤ clock (app.date_now s).1)
    pub slept : (ms : ℕ) (s : S) → clock s + ms ≤ clock (app.sleep ms s)
    pub after_health : (url : Text) (s : S) → clock s ≤ clock (app.get_health url s).1
    pub after_post :
        (url : Text) (c : Context) (s : S) → clock s ≤ clock (app.post_update url c s).1
    pub after_listing :
        (url user : Text) (s : S) → clock s ≤ clock (app.get_transactions url user s).1

-- A run has ended, with an error or with a value that satisfies a predicate.
abbrev pub Ends : {S A : Type 0} → Option (Result A × S) → (A → S → Type 0) → Type 0
Ends {S} {A} o P =
    ((e : Text) × (s : S) × (o ≡ some (err e, s)))
    ⊎ ((a : A) × (s : S) × (o ≡ some (ok a, s)) × P a s)

pub Ends-and_then :
    {S A B : Type 0} (P : A → S → Type 0) (Q : B → S → Type 0) (o : Option (Result A × S))
    (k : A → Run S B)
    → Ends o P
    → ((a : A) (s : S) → P a s → Ends (k a s) Q)
    → Ends (and_then o k) Q
Ends-and_then P Q o k (inl (e, s, is_err)) next = inl (e, s, rw is_err refl)
Ends-and_then P Q o k (inr (a, s, is_ok, p)) next = rw is_ok (next a s p)

Ends-map :
    {S A : Type 0} (P Q : A → S → Type 0) (o : Option (Result A × S))
    → ((a : A) (s : S) → P a s → Q a s)
    → Ends o P
    → Ends o Q
Ends-map P Q o f (inl failed) = inl failed
Ends-map P Q o f (inr (a, s, is_ok, p)) = inr (a, s, is_ok, f a s p)

not_past :
    (n : ℕ) (wait : Number) (from now : ℕ)
    → IsAtMost n wait
    → gives_up wait from now ≡ false
    → now ≤ from + n
not_past n not_a_number from now most h = absurd most
not_past n negative from now most h = absurd (cc)
not_past n (natural k) from now most h = ground arith

module _ {S Summary : Type 0} (js : Readings) (app : Instance S Summary) (clock : S → ℕ)
    (laws : IsClock app clock) where
  abbrev pub Later : {A : Type 0} → S → A → S → Type 0
  Later s a s' = clock s ≤ clock s'

  -- The state after a round that finds the instance down, and its pause.
  abbrev after_round : Text → S → S
  after_round url s = app.sleep health_poll_interval_ms (app.date_now (app.get_health url s).1).1

  abbrev round_time : Text → S → ℕ
  round_time url s = (app.date_now (app.get_health url s).1).0

  round_takes :
      (url : Text) (s : S)
      → (clock s ≤ round_time url s) × (clock s + 2000 ≤ clock (after_round url s))
  round_takes url s =
      let s1 = (app.get_health url s).1 in
      let read = laws.now_read s1 in
      let waited = laws.after_health url s in
      let slept = laws.slept 2000 (app.date_now s1).1 in
      (omega (arith, waited, read), omega (arith, waited, read, slept))

  health_round :
      (f : ℕ) (url : Text) (n : ℕ) (wait : Number) (from : ℕ) (s : S)
      → IsAtMost n wait
      → (round_time url s ≤ from + n
          → Ends (wait_for_health js app f url wait from (after_round url s)) (Later s))
      → Ends (wait_for_health js app (suc f) url wait from s) (Later s)
  unfolding wait_for_health
  health_round f url n wait from s most rest =
      elim (Bool-cases (is_healthy (app.get_health url s).0)) [
        | inl healthy ↦
            rw healthy (inr (tt, (app.get_health url s).1, refl, laws.after_health url s))
        | inr down ↦ elim (Bool-cases (gives_up wait from (round_time url s))) [
          | inl over ↦ rw (down, over) (inl (_, _, refl))
          | inr more ↦ rw (down, more) (rest (not_past n wait from (round_time url s) most more))
        ]
      ]

  -- No round of the loop goes on after the deadline.
  pub wait_for_health-Ends :
      (f : ℕ) (url : Text) (n : ℕ) (wait : Number) (from : ℕ) (s : S)
      → IsAtMost n wait
      → from + n < clock s + 2000 * f
      → Ends (wait_for_health js app (suc f) url wait from s) (Later s)
  wait_for_health-Ends zero url n wait from s most few =
      health_round zero url n wait from s most
        λ on. absurd (omega (arith, few, on, round_takes url s))
  wait_for_health-Ends (suc f) url n wait from s most few =
      health_round (suc f) url n wait from s most λ on.
        let takes = round_takes url s in
        Ends-map (Later (after_round url s)) (Later s) _ (λ u s' later. omega (arith, later, takes))
          (wait_for_health-Ends f url n wait from (after_round url s) most
            (omega (arith, few, takes)))
