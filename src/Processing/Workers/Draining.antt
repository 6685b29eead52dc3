-- ===== src/Processing/Workers/Draining.antt =====
-- That the worker can always go on: the queue is emptied.
use native.Mathlib.Nat.{eq-or-lt_of_le}
use birr_track_backend.Base.{
  ℕ, zero, suc, ◌+◌, ◌≡◌, ◌⊎◌, inl, inr, refl, ap, subst, All, ◌∙◌, ◌<◌, arith, Option, none, some,
  List, [], ◌∷◌, length, Option-cases,
}
use birr_track_backend.Base.Results.{Result-cases}
use birr_track_backend.Base.Effects.{Call-cases}
use birr_track_backend.Js.Numbers.{JsNumber}
use birr_track_backend.Js.Dates.{JsDate}
use birr_track_backend.Transactions.Store.{Store}
use birr_track_backend.Transactions.Service.{create, find_duplicate}
use birr_track_backend.Processing.Reading.{World, read_receipt}
use birr_track_backend.Processing.Job.{Backend, critical_fields, create_dto}
use birr_track_backend.Processing.Workers.{
  attempts, Phase, reading, looked_up, Entry, Run, System, idle, Throws, read_throws,
  look_up_throws, insert_throws, Advances, skip, look_up, insert, Step, start, advance, complete,
  retry, give_up, Steps, here, then,
}
use birr_track_backend.Processing.Workers.Consistency.{
  IsBounded, IsAttempt, Steps-IsBounded, Step-IsBounded,
}
use birr_track_backend.Processing.Workers.Ending.{work, Step-work}

attempt_cases : (e : Entry) → IsAttempt e → (e.attempt < attempts) ⊎ (e.attempt ≡ attempts)
attempt_cases e own = elim (eq-or-lt_of_le own) [ inl last ↦ inr last | inr more ↦ inl more ]

List-cases {ℓ} :
    {A : Type ℓ} (xs : List A) → (xs ≡ []) ⊎ ((x : A) × (rest : List A) × (xs ≡ x ∷ rest))
List-cases [] = inl refl
List-cases (x ∷ xs) = inr (x, xs, refl)

module _ {S Num Time Image : Type 0} ⦃js : JsNumber Num⦄ ⦃dates : JsDate Time⦄
    (store : Store S Num Time) (w : World Num Image) where
  -- What the services answer decides whether the run throws or goes on; it never stays where it is.
  run_goes_on :
      (e : Entry) (b : Backend S Num Time) (phase : Phase Num)
      → (b' : Backend S Num Time) × (Throws Image store e b phase b'
          ⊎ ((next : Option (Phase Num)) × Advances Image store e b phase b' next))
  run_goes_on e b reading = elim (Result-cases (read_receipt w e.payload)) [
    | inr (m, failed) ↦ (b, inl (read_throws w m failed))
    | inl ((url, p), read) ↦ elim (Option-cases (critical_fields p)) [
      | inl missing ↦ (b, inr (none, skip w url p read missing))
      | inr (fields, full) ↦
          elim (Call-cases
            (find_duplicate store fields.transaction_id fields.amount fields.timestamp b.db)) [
              | inr (m, s', failed) ↦ (_, inl (look_up_throws fields m s' failed))
              | inl (o, s', looked) ↦ (_, inr (_, look_up w url p fields o s' read full looked))
            ]
    ]
  ]
  run_goes_on e b (looked_up url c fields flag) =
      elim (Call-cases (create store (create_dto e.payload url fields c flag) b.db)) [
        | inr (m, s', failed) ↦ (_, inl (insert_throws url c fields flag m s' failed))
        | inl (t, s', made) ↦ (_, inr (none, insert url c fields flag t s' made))
      ]

  -- A state that one step reaches, with nothing queued meanwhile.
  abbrev Successor : System S Num Time → Type 0
  Successor x = (y : System S Num Time) × Step Image store x y × (y.enqueued ≡ x.enqueued)

  run-Successor :
      (x : System S Num Time) (r : Run Num) (rest : List (Run Num))
      → x.active ≡ r ∷ rest
      → IsAttempt r.entry
      → Successor x
  run-Successor x r rest split own =
      let (b', outcome) = run_goes_on r.entry x.backend r.phase in
      elim outcome [
        | inr (none, moved) ↦ (_, complete [] rest r b' split moved, refl)
        | inr (some next, moved) ↦ (_, advance [] rest r b' next split moved, refl)
        | inl failed ↦ elim (attempt_cases r.entry own) [
          | inl more ↦ (_, retry [] rest r b' split failed more, refl)
          | inr last ↦ (_, give_up [] rest r b' split failed last, refl)
        ]
      ]

  -- Nothing waits and nothing runs.
  pub record IsQuiet (x : System S Num Time) : Type 0 where
    pub none_waiting : x.waiting ≡ []
    pub none_active : x.active ≡ []

  Successor-or_IsQuiet : (x : System S Num Time) → IsBounded x → Successor x ⊎ IsQuiet x
  Successor-or_IsQuiet x h = elim (List-cases x.active) [
    | inr (r, rest, split) ↦ inl (
        run-Successor x r rest split
          (subst (All (λ q. IsAttempt q.entry)) split h.active_attempts).0)
    | inl no_run ↦ elim (List-cases x.waiting) [
      | inr (e, rest, split) ↦ inl (_, start [] rest e split (rw no_run (omega arith)), refl)
      | inl no_entry ↦ inr (record { none_waiting = no_entry; none_active = no_run })
    ]
  ]

  -- A state that steps reach, with nothing queued meanwhile, in which each job has ended.
  pub record Drained (x : System S Num Time) : Type 0 where
    pub last : System S Num Time
    pub reached : Steps Image store x last
    pub nothing_queued : last.enqueued ≡ x.enqueued
    pub quiet : IsQuiet last
    pub all_ended : length x.enqueued ≡ length last.completed + length last.dropped

  drain :
      (n : ℕ) (x y : System S Num Time)
      → Steps Image store x y
      → y.enqueued ≡ x.enqueued
      → IsBounded y
      → work y < n
      → Drained x
  drain zero x y reached same h few = absurd (omega arith)
  drain (suc n) x y reached same h few = elim (Successor-or_IsQuiet y h) [
    | inr quiet ↦ record {
      last = y;
      reached = reached;
      nothing_queued = same;
      quiet = quiet;
      all_ended = omega (
        arith,
        ap length same,
        h.none_lost,
        ap length quiet.none_waiting,
        ap length quiet.none_active,
      );
    }
    | inl (z, step, kept) ↦
        let less = Step-work Image store y z step h in
        drain n x z (then y z reached step) (kept ∙ same) (Step-IsBounded Image store y z step h)
          (omega (arith, less, ap length kept, few))
  ]

  -- From each state that an idle queue reaches, and with services that may answer anything, there are
  -- steps to a state in which nothing waits and nothing runs, with nothing queued meanwhile: each job
  -- that was queued has then completed or was dropped.
  pub Steps-Drained :
      (b : Backend S Num Time) (x : System S Num Time) → Steps Image store (idle b) x → Drained x
  Steps-Drained b x reached =
      drain (suc (work x)) x x here refl (Steps-IsBounded Image store b x reached) (omega arith)
