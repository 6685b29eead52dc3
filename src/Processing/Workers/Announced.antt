-- ===== src/Processing/Workers/Announced.antt =====
-- The rows that interleaved runs add, and the events that they send.
use mathlib.Core.List.{append_assoc, append-nil, map-append}
use birr_track_backend.Base.{
  ◌+◌, refl, sym, ap, ◌∙◌, ◌≤◌, arith, none, some, List, [], ◌++◌, map, length, length-append,
}
use birr_track_backend.Js.Numbers.{JsNumber}
use birr_track_backend.Js.Dates.{JsDate}
use birr_track_backend.Transactions.Entities.{Transaction, EditLog}
use birr_track_backend.Transactions.Fields.{to_response}
use birr_track_backend.Transactions.Store.{Store}
use birr_track_backend.Transactions.Laws.{IsStore}
use birr_track_backend.Processing.Job.{Backend}
use birr_track_backend.Processing.Workers.{
  System, idle, Step, enqueue, start, advance, complete, retry, give_up, Steps, here, then,
}
use birr_track_backend.Processing.Workers.Runs.{Grown, Throws-Grown, Advances-Grown}

module _ {S Num Time : Type 0} ⦃js : JsNumber Num⦄ ⦃dates : JsDate Time⦄ (Image : Type 0)
    (store : Store S Num Time) {rows : S → List (Transaction Num Time)} {logs : S → List EditLog}
    (laws : IsStore store rows logs) where
  -- The rows that were added since a state: each was announced, and each is of a completed job.
  pub record IsAnnounced (b : Backend S Num Time) (x : System S Num Time) : Type 0 where
    pub added : List (Transaction Num Time)
    pub grown : Grown Image store laws b x.backend added
    pub of_completed : length added ≤ length x.completed

  Grown-none : (b : Backend S Num Time) → Grown Image store laws b b []
  Grown-none b = record {
    rows_after = sym (append-nil (rows b.db));
    events_after = sym (append-nil b.emitted);
    logs_after = refl;
  }

  Grown-trans :
      (a b c : Backend S Num Time) (xs ys : List (Transaction Num Time))
      → Grown Image store laws a b xs
      → Grown Image store laws b c ys
      → Grown Image store laws a c (xs ++ ys)
  Grown-trans a b c xs ys g h = record {
    rows_after = h.rows_after ∙ (ap (λ z. z ++ ys) g.rows_after ∙ append_assoc (rows a.db) xs ys);
    events_after =
        h.events_after
        ∙ (ap (λ z. z ++ map to_response ys) g.events_after
            ∙ (append_assoc a.emitted (map to_response xs) (map to_response ys)
                ∙ ap (λ z. a.emitted ++ z) (sym (map-append to_response xs ys))));
    logs_after = h.logs_after ∙ g.logs_after;
  }

  -- A step that adds rows for as many completed jobs.
  after_step :
      (b : Backend S Num Time) (x y : System S Num Time) (new : List (Transaction Num Time))
      → IsAnnounced b x
      → Grown Image store laws x.backend y.backend new
      → length new + length x.completed ≤ length y.completed
      → IsAnnounced b y
  after_step b x y new a g counted = record {
    added = a.added ++ new;
    grown = Grown-trans b x.backend y.backend a.added new a.grown g;
    of_completed = omega (arith, length-append a.added new, a.of_completed);
  }

  Step-IsAnnounced :
      (b : Backend S Num Time) (x y : System S Num Time)
      → Step Image store x y
      → IsAnnounced b x
      → IsAnnounced b y
  Step-IsAnnounced b x y (enqueue p) a = after_step b x y [] a (Grown-none x.backend) (omega arith)
  Step-IsAnnounced b x y (start before after e split free) a =
      after_step b x y [] a (Grown-none x.backend) (omega arith)
  Step-IsAnnounced b x y (advance before after r b' next split moved) a =
      let (new, grown, few) =
        Advances-Grown Image store laws r.entry x.backend b' r.phase (some next) moved in
      after_step b x y new a grown (omega (arith, few))
  Step-IsAnnounced b x y (complete before after r b' split moved) a =
      let (new, grown, few) =
        Advances-Grown Image store laws r.entry x.backend b' r.phase none moved in
      after_step b x y new a grown (omega (arith, few))
  Step-IsAnnounced b x y (retry before after r b' split failed more) a =
      after_step b x y [] a (Throws-Grown Image store laws r.entry x.backend b' r.phase failed)
        (omega arith)
  Step-IsAnnounced b x y (give_up before after r b' split failed last) a =
      after_step b x y [] a (Throws-Grown Image store laws r.entry x.backend b' r.phase failed)
        (omega arith)

  -- However the runs are interleaved and repeated, from an idle queue on: the table has grown at its
  -- end by rows each of which was announced once, in the order of their insertion, by no more rows
  -- than jobs have completed, and the edit log has not changed.
  pub Steps-IsAnnounced :
      (b : Backend S Num Time) (x : System S Num Time)
      → Steps Image store (idle b) x
      → IsAnnounced b x
  Steps-IsAnnounced b x here = record {
    added = [];
    grown = Grown-none b;
    of_completed = omega arith;
  }
  Steps-IsAnnounced b x (then y z before last) =
      Step-IsAnnounced b y z last (Steps-IsAnnounced b y before)
