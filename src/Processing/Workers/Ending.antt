-- ===== src/Processing/Workers/Ending.antt =====
-- How many steps the jobs of the queue can still take.
use Prim.Native.Nat.{◌*◌, ◌-◌}
use birr_track_backend.Base.{
  ℕ, zero, suc, ◌+◌, ◌≡◌, refl, ap, subst, ◌∙◌, ◌≤◌, ◌<◌, arith, some, List, [], ◌∷◌, ◌++◌, length,
  length-append, All,
}
use birr_track_backend.Js.Numbers.{JsNumber}
use birr_track_backend.Js.Dates.{JsDate}
use birr_track_backend.Transactions.Store.{Store}
use birr_track_backend.Processing.Job.{Backend}
use birr_track_backend.Processing.Workers.{
  attempts, Phase, reading, looked_up, Entry, Run, System, idle, next_attempt, Advances, look_up,
  Step, enqueue, start, advance, complete, retry, give_up, Steps, here, then,
}
use birr_track_backend.Processing.Workers.Consistency.{
  All-middle, IsAttempt, IsBounded, take_out, Steps-IsBounded,
}

-- The steps of a job from the queue to its end, its later attempts included: three of an attempt.
abbrev pub entry_work : Entry → ℕ
entry_work e = 3 * (4 - e.attempt)

abbrev phase_work : {Num : Type 0} → Phase Num → ℕ
phase_work reading = 1
phase_work (looked_up _ _ _ _) = 2

abbrev pub run_work : {Num : Type 0} → Run Num → ℕ
run_work r = entry_work r.entry - phase_work r.phase

abbrev pub total {ℓ} : {A : Type ℓ} → (A → ℕ) → List A → ℕ
total f [] = 0
total f (x ∷ xs) = f x + total f xs

abbrev pub work : {S Num Time : Type 0} → System S Num Time → ℕ
work x = total entry_work x.waiting + total run_work x.active

total-append {ℓ} :
    {A : Type ℓ} (f : A → ℕ) (xs ys : List A) → total f (xs ++ ys) ≡ total f xs + total f ys
total-append f [] ys = omega arith
total-append f (x ∷ xs) ys = omega (arith, total-append f xs ys)

total-middle {ℓ} :
    {A : Type ℓ} (f : A → ℕ) (xs ys : List A) (y : A)
    → total f (xs ++ y ∷ ys) ≡ f y + total f (xs ++ ys)
total-middle f [] ys y = refl
total-middle f (x ∷ xs) ys y = omega (arith, total-middle f xs ys y)

total-split {ℓ} :
    {A : Type ℓ} (f : A → ℕ) {zs : List A} (xs ys : List A) (y : A)
    → zs ≡ xs ++ y ∷ ys
    → total f zs ≡ f y + total f (xs ++ ys)
total-split f xs ys y split = ap (total f) split ∙ total-middle f xs ys y

phase_work_cases : {Num : Type 0} (p : Phase Num) → (1 ≤ phase_work p) × (phase_work p ≤ 2)
phase_work_cases reading = (omega arith, omega arith)
phase_work_cases (looked_up _ _ _ _) = (omega arith, omega arith)

run_work_pos : {Num : Type 0} (r : Run Num) → IsAttempt r.entry → 1 ≤ run_work r
run_work_pos r own = omega (arith, own, phase_work_cases r.phase)

run_work_retry :
    {Num : Type 0} (r : Run Num)
    → r.entry.attempt < attempts
    → suc (entry_work (next_attempt r.entry)) ≤ run_work r
run_work_retry r more = omega (arith, more, phase_work_cases r.phase)

module _ {S Num Time : Type 0} ⦃js : JsNumber Num⦄ ⦃dates : JsDate Time⦄ (Image : Type 0)
    (store : Store S Num Time) where
  -- A chain of steps, and how many they are.
  pub data Chain (x : System S Num Time) : ℕ → System S Num Time → Type 0 where
    none_yet : Chain x 0 x
    one_more :
        (n : ℕ) (y z : System S Num Time) → Chain x n y → Step Image store y z → Chain x (suc n) z

  pub Chain-Steps : (x y : System S Num Time) (n : ℕ) → Chain x n y → Steps Image store x y
  Chain-Steps x y zero none_yet = here
  Chain-Steps x z (suc n) (one_more m y w before last) = then y z (Chain-Steps x y n before) last

  -- The run that goes on has less to do.
  moved_less :
      (e : Entry) (b b' : Backend S Num Time) (phase next : Phase Num)
      → Advances Image store e b phase b' (some next)
      → IsAttempt e
      → suc (run_work (record { entry = e; phase = next }))
        ≤ run_work (record { entry = e; phase = phase })
  moved_less e b b' _ _ (look_up w url p fields o s' read full looked) own = omega (arith, own)

  pub Step-work :
      (x y : System S Num Time)
      → Step Image store x y
      → IsBounded x
      → suc (work y) + 10 * length x.enqueued ≤ work x + 10 * length y.enqueued
  Step-work x y (enqueue p) h = omega (
    arith,
    length-append x.enqueued (p ∷ []),
    total-append entry_work x.waiting (record { payload = p; attempt = 1 } ∷ []),
  )
  Step-work x y (start before after e split free) h =
      let parts =
        All-middle IsAttempt before after e (subst (All IsAttempt) split h.waiting_attempts) in
      omega (arith, parts.0, total-split entry_work before after e split)
  Step-work x y (advance before after r b' next split moved) h =
      let t = take_out x before after r split h in
      let moved_run : Run Num = record { entry = r.entry; phase = next } in
      omega (
        arith,
        moved_less r.entry x.backend b' r.phase next moved t.own,
        total-split run_work before after r split,
        total-middle run_work before after moved_run,
      )
  Step-work x y (complete before after r b' split moved) h =
      let t = take_out x before after r split h in
      omega (arith, run_work_pos r t.own, total-split run_work before after r split)
  Step-work x y (retry before after r b' split failed more) h =
      let t = take_out x before after r split h in
      omega (arith, run_work_retry r more, total-split run_work before after r split)
  Step-work x y (give_up before after r b' split failed last) h =
      let t = take_out x before after r split h in
      omega (arith, run_work_pos r t.own, total-split run_work before after r split)

  -- A chain of n steps from an idle queue on: n and the work that is left are at most ten times the
  -- number of the jobs that were queued, whatever the services answer and however the runs are
  -- interleaved, by steps in which every call that a run has made settles.
  pub Chain-bounded :
      (b : Backend S Num Time) (x : System S Num Time) (n : ℕ)
      → Chain (idle b) n x
      → n + work x ≤ 10 * length x.enqueued
  Chain-bounded b x zero none_yet = omega arith
  Chain-bounded b x (suc n) (one_more m y z before last) = omega (
    arith,
    Chain-bounded b y n before,
    Step-work y x last (Steps-IsBounded Image store b y (Chain-Steps (idle b) y n before)),
  )
