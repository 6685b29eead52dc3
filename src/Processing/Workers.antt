-- ===== src/Processing/Workers.antt =====
-- Jobs side by side: `DEFAULT_JOB_OPTIONS` of src/queue/queue.service.ts and the worker of
-- src/queue/image-processing.worker.ts. The calls of `processImageJob` that are awaited are steps of
-- their own, since another job can run between them; the insertion and the event are one step, since
-- nothing is awaited between them. When the queue starts or repeats a job is left open, within
-- what BullMQ documents of `attempts` and `concurrency`. A run whose process stops or stalls, which
-- BullMQ puts back into the queue without counting an attempt, has no step here.
pub mod Runs
pub mod Consistency
pub mod Ending
pub mod Draining
pub mod Announced
pub mod Simulation
use birr_track_backend.Base.{
  ℕ, suc, ◌≡◌, ◌<◌, Bool, Option, none, some, List, [], ◌∷◌, ◌++◌, Text, is_some, length,
}
use birr_track_backend.Base.Results.{ok, err}
use birr_track_backend.Js.Numbers.{JsNumber}
use birr_track_backend.Js.Dates.{JsDate}
use birr_track_backend.Parsing.Service.{ParsedTransaction}
use birr_track_backend.Transactions.Entities.{Transaction}
use birr_track_backend.Transactions.Fields.{to_response}
use birr_track_backend.Transactions.Store.{Store}
use birr_track_backend.Transactions.Service.{create, find_duplicate}
use birr_track_backend.Processing.Reading.{ImageProcessingJobPayload, World, read_receipt}
use birr_track_backend.Processing.Job.{Backend, Critical, critical_fields, create_dto}

abbrev pub attempts : ℕ
attempts = 3

abbrev pub concurrency : ℕ
concurrency = 2

-- How far a run of `processImageJob` has come: before the answer of `findDuplicate`, or after it.
pub data Phase (Num : Type 0) : Type 0 where
  reading : Phase Num
  looked_up : Text → Num → Critical Num → Bool → Phase Num

-- A job and the number of its attempt, from 1.
pub record Entry : Type 0 where
  pub payload : ImageProcessingJobPayload
  pub attempt : ℕ

pub record Run (Num : Type 0) : Type 0 where
  pub entry : Entry
  pub phase : Phase Num

-- The queue, the runs under way, the jobs that ended, and what the runs share.
pub record System (S Num Time : Type 0) : Type 0 where
  pub backend : Backend S Num Time
  pub waiting : List Entry
  pub active : List (Run Num)
  pub completed : List Entry
  pub dropped : List Entry
  pub enqueued : List ImageProcessingJobPayload

abbrev pub next_attempt : Entry → Entry
next_attempt e = record e { attempt = suc e.attempt }

module _ {S Num Time : Type 0} ⦃js : JsNumber Num⦄ ⦃dates : JsDate Time⦄ (Image : Type 0)
    (store : Store S Num Time) where
  -- A run throws, and leaves the shared state `b'`; the services may answer anything.
  pub data Throws (e : Entry) (b : Backend S Num Time)
      : Phase Num → Backend S Num Time → Type 0 where
    read_throws :
        (w : World Num Image) (m : Text) → read_receipt w e.payload ≡ err m → Throws e b reading b
    look_up_throws :
        (fields : Critical Num) (m : Text) (s' : S)
        → find_duplicate store fields.transaction_id fields.amount fields.timestamp b.db
          ≡ (err m, s')
        → Throws e b reading (record b { db = s' })
    insert_throws :
        (url : Text) (confidence : Num) (fields : Critical Num) (flag : Bool) (m : Text) (s' : S)
        → create store (create_dto e.payload url fields confidence flag) b.db ≡ (err m, s')
        → Throws e b (looked_up url confidence fields flag) (record b { db = s' })

  -- A step of a run that does not throw: on to the next phase, or to its end.
  pub data Advances (e : Entry) (b : Backend S Num Time)
      : Phase Num → Backend S Num Time → Option (Phase Num) → Type 0 where
    skip :
        (w : World Num Image) (url : Text) (p : ParsedTransaction Num)
        → read_receipt w e.payload ≡ ok (url, p)
        → critical_fields p ≡ none
        → Advances e b reading b none
    look_up :
        (w : World Num Image) (url : Text) (p : ParsedTransaction Num) (fields : Critical Num)
        (o : Option (Transaction Num Time)) (s' : S)
        → read_receipt w e.payload ≡ ok (url, p)
        → critical_fields p ≡ some fields
        → find_duplicate store fields.transaction_id fields.amount fields.timestamp b.db
          ≡ (ok o, s')
        → Advances e b reading
            (record b { db = s' })
            (some (looked_up url p.confidence fields (is_some o)))
    insert :
        (url : Text) (confidence : Num) (fields : Critical Num) (flag : Bool)
        (t : Transaction Num Time) (s' : S)
        → create store (create_dto e.payload url fields confidence flag) b.db ≡ (ok t, s')
        → Advances e b
            (looked_up url confidence fields flag)
            (record { db = s'; emitted = b.emitted ++ to_response t ∷ [] })
            none

  pub data Step (x : System S Num Time) : System S Num Time → Type 0 where
    enqueue :
        (p : ImageProcessingJobPayload)
        → Step x (record x {
          waiting = x.waiting ++ record { payload = p; attempt = 1 } ∷ [];
          enqueued = x.enqueued ++ p ∷ [];
        })
    start :
        (before after : List Entry) (e : Entry)
        → x.waiting ≡ before ++ e ∷ after
        → length x.active < concurrency
        → Step x (record x {
          waiting = before ++ after;
          active = record { entry = e; phase = reading } ∷ x.active;
        })
    advance :
        (before after : List (Run Num)) (r : Run Num) (b' : Backend S Num Time) (next : Phase Num)
        → x.active ≡ before ++ r ∷ after
        → Advances r.entry x.backend r.phase b' (some next)
        → Step x (record x {
          backend = b';
          active = before ++ record { entry = r.entry; phase = next } ∷ after;
        })
    complete :
        (before after : List (Run Num)) (r : Run Num) (b' : Backend S Num Time)
        → x.active ≡ before ++ r ∷ after
        → Advances r.entry x.backend r.phase b' none
        → Step x
            (record x { backend = b'; active = before ++ after; completed = r.entry ∷ x.completed })
    retry :
        (before after : List (Run Num)) (r : Run Num) (b' : Backend S Num Time)
        → x.active ≡ before ++ r ∷ after
        → Throws r.entry x.backend r.phase b'
        → r.entry.attempt < attempts
        → Step x (record x {
          backend = b';
          active = before ++ after;
          waiting = next_attempt r.entry ∷ x.waiting;
        })
    give_up :
        (before after : List (Run Num)) (r : Run Num) (b' : Backend S Num Time)
        → x.active ≡ before ++ r ∷ after
        → Throws r.entry x.backend r.phase b'
        → r.entry.attempt ≡ attempts
        → Step x
            (record x { backend = b'; active = before ++ after; dropped = r.entry ∷ x.dropped })

  pub data Steps (x : System S Num Time) : System S Num Time → Type 0 where
    here : Steps x x
    then : (y z : System S Num Time) → Steps x y → Step y z → Steps x z

pub Steps-trans :
    {S Num Time : Type 0} ⦃js : JsNumber Num⦄ ⦃dates : JsDate Time⦄ (Image : Type 0)
    (store : Store S Num Time) (x y z : System S Num Time)
    → Steps Image store x y
    → Steps Image store y z
    → Steps Image store x z
Steps-trans Image store x y z first here = first
Steps-trans Image store x y z first (then v w before last) =
    then v w (Steps-trans Image store x y v first before) last

-- Nothing queued yet.
abbrev pub idle : {S Num Time : Type 0} → Backend S Num Time → System S Num Time
idle b = record {
  backend = b;
  waiting = [];
  active = [];
  completed = [];
  dropped = [];
  enqueued = [];
}
