-- ===== src/Processing/Workers/Consistency.antt =====
-- What holds of the queue and the tables however the runs are interleaved.
use birr_track_backend.Base.{
  suc, ◌+◌, ◌≡◌, refl, ap, subst, ◌∙◌, ◌≤◌, arith, List, [], ◌∷◌, ◌++◌, length, length-append, All,
  All-append,
}
use birr_track_backend.Js.Numbers.{JsNumber}
use birr_track_backend.Js.Dates.{JsDate}
use birr_track_backend.Transactions.Store.{Store}
use birr_track_backend.Processing.Job.{Backend}
use birr_track_backend.Processing.Workers.{
  Entry, Run, System, idle, Step, enqueue, start, advance, complete, retry, give_up, Steps, here,
  then,
}

length-middle {ℓ} :
    {A : Type ℓ} (xs ys : List A) (y : A) → length (xs ++ y ∷ ys) ≡ suc (length (xs ++ ys))
length-middle [] ys y = refl
length-middle (x ∷ xs) ys y = ap suc (length-middle xs ys y)

pub All-middle {ℓ κ} :
    {A : Type ℓ} (P : A → Type κ) (xs ys : List A) (y : A)
    → All P (xs ++ y ∷ ys)
    → P y × All P (xs ++ ys)
All-middle P [] ys y h = h
All-middle P (x ∷ xs) ys y h = let (at_y, rest) = All-middle P xs ys y h.1 in (at_y, (h.0, rest))

All-put {ℓ κ} :
    {A : Type ℓ} (P : A → Type κ) (xs ys : List A) (y : A)
    → P y
    → All P (xs ++ ys)
    → All P (xs ++ y ∷ ys)
All-put P [] ys y at_y h = (at_y, h)
All-put P (x ∷ xs) ys y at_y h = (h.0, All-put P xs ys y at_y h.1)

abbrev pub IsAttempt : Entry → Type 0
IsAttempt e = e.attempt ≤ 3

-- The jobs of the queue: each is in one place, two run at most, none is tried too often, and none is
-- dropped before its third attempt.
pub record IsBounded {S Num Time : Type 0} (x : System S Num Time) : Type 0 where
  pub side_by_side : length x.active ≤ 2
  pub waiting_attempts : All IsAttempt x.waiting
  pub active_attempts : All (λ r. IsAttempt r.entry) x.active
  pub dropped_attempts : All (λ e. e.attempt ≡ 3) x.dropped
  pub none_lost :
      length x.enqueued ≡ length x.waiting + length x.active + length x.completed + length x.dropped

-- A run is taken out of the list of those under way.
pub record Taken {S Num Time : Type 0} (x : System S Num Time) (before after : List (Run Num))
    (r : Run Num) : Type 0 where
  pub one_less : length x.active ≡ suc (length (before ++ after))
  pub own : IsAttempt r.entry
  pub others : All (λ q. IsAttempt q.entry) (before ++ after)

pub take_out :
    {S Num Time : Type 0} (x : System S Num Time) (before after : List (Run Num)) (r : Run Num)
    → x.active ≡ before ++ r ∷ after
    → IsBounded x
    → Taken x before after r
take_out x before after r split h =
    let parts =
      All-middle (λ q. IsAttempt q.entry) before after r
        (subst (All (λ q. IsAttempt q.entry)) split h.active_attempts) in
    record {
      one_less = ap length split ∙ length-middle before after r;
      own = parts.0;
      others = parts.1;
    }

module _ {S Num Time : Type 0} ⦃js : JsNumber Num⦄ ⦃dates : JsDate Time⦄ (Image : Type 0)
    (store : Store S Num Time) where
  pub Step-IsBounded : (x y : System S Num Time) → Step Image store x y → IsBounded x → IsBounded y
  Step-IsBounded x y (enqueue p) h = record {
    side_by_side = h.side_by_side;
    waiting_attempts = All-append IsAttempt x.waiting _ (omega arith, tt) h.waiting_attempts;
    active_attempts = h.active_attempts;
    dropped_attempts = h.dropped_attempts;
    none_lost = omega (
      arith,
      h.none_lost,
      length-append x.enqueued (p ∷ []),
      length-append x.waiting (record { payload = p; attempt = 1 } ∷ []),
    );
  }
  Step-IsBounded x y (start before after e split free) h =
      let parts =
        All-middle IsAttempt before after e (subst (All IsAttempt) split h.waiting_attempts) in
      record {
        side_by_side = free;
        waiting_attempts = parts.1;
        active_attempts = (parts.0, h.active_attempts);
        dropped_attempts = h.dropped_attempts;
        none_lost = omega (arith, h.none_lost, ap length split, length-middle before after e);
      }
  Step-IsBounded x y (advance before after r b' next split moved) h =
      let t = take_out x before after r split h in
      let moved_run : Run Num = record { entry = r.entry; phase = next } in
      record {
        side_by_side =
            omega (arith, h.side_by_side, t.one_less, length-middle before after moved_run);
        waiting_attempts = h.waiting_attempts;
        active_attempts = All-put (λ q. IsAttempt q.entry) before after moved_run t.own t.others;
        dropped_attempts = h.dropped_attempts;
        none_lost = omega (arith, h.none_lost, t.one_less, length-middle before after moved_run);
      }
  Step-IsBounded x y (complete before after r b' split moved) h =
      let t = take_out x before after r split h in
      record {
        side_by_side = omega (arith, h.side_by_side, t.one_less);
        waiting_attempts = h.waiting_attempts;
        active_attempts = t.others;
        dropped_attempts = h.dropped_attempts;
        none_lost = omega (arith, h.none_lost, t.one_less);
      }
  Step-IsBounded x y (retry before after r b' split failed more) h =
      let t = take_out x before after r split h in
      record {
        side_by_side = omega (arith, h.side_by_side, t.one_less);
        waiting_attempts = (more, h.waiting_attempts);
        active_attempts = t.others;
        dropped_attempts = h.dropped_attempts;
        none_lost = omega (arith, h.none_lost, t.one_less);
      }
  Step-IsBounded x y (give_up before after r b' split failed last) h =
      let t = take_out x before after r split h in
      record {
        side_by_side = omega (arith, h.side_by_side, t.one_less);
        waiting_attempts = h.waiting_attempts;
        active_attempts = t.others;
        dropped_attempts = (last, h.dropped_attempts);
        none_lost = omega (arith, h.none_lost, t.one_less);
      }

  pub Steps-IsBounded :
      (b : Backend S Num Time) (x : System S Num Time) → Steps Image store (idle b) x → IsBounded x
  Steps-IsBounded b x here = record {
    side_by_side = omega arith;
    waiting_attempts = tt;
    active_attempts = tt;
    dropped_attempts = tt;
    none_lost = refl;
  }
  Steps-IsBounded b x (then y z before last) = Step-IsBounded y z last (Steps-IsBounded b y before)
