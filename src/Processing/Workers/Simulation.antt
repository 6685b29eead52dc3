-- ===== src/Processing/Workers/Simulation.antt =====
-- That the steps are those of `processImageJob`: a run of it with no other in between is one way
-- through them.
use birr_track_backend.Base.{
  ◌≡◌, inl, inr, refl, subst, Text, some, List, ◌∷◌, ◌++◌, is_some, Option-cases,
}
use birr_track_backend.Base.Results.{ok, Result-cases}
use birr_track_backend.Base.Effects.{Call-cases, ok_pair, err-ne-ok}
use birr_track_backend.Js.Numbers.{JsNumber}
use birr_track_backend.Js.Dates.{JsDate}
use birr_track_backend.Transactions.Store.{Store}
use birr_track_backend.Transactions.Service.{create, find_duplicate}
use birr_track_backend.Parsing.Service.{ParsedTransaction}
use birr_track_backend.Processing.Reading.{World, read_receipt}
use birr_track_backend.Processing.Job.{
  Backend, Critical, critical_fields, create_dto, save_receipt, process_image_job,
}
use birr_track_backend.Processing.Workers.{
  Phase, reading, looked_up, Entry, Run, System, skip, look_up, insert, advance, complete, Steps,
  here, then,
}

module _ {S Num Time Image : Type 0} ⦃js : JsNumber Num⦄ ⦃dates : JsDate Time⦄
    (store : Store S Num Time) (w : World Num Image) (x : System S Num Time)
    (before after : List (Run Num)) (e : Entry) where
  -- The run of `e` is the one to come next, and when it has ended.
  abbrev at_phase : Backend S Num Time → Phase Num → System S Num Time
  at_phase b phase = record x {
    backend = b;
    active = before ++ record { entry = e; phase = phase } ∷ after;
  }

  abbrev pub ended : Backend S Num Time → System S Num Time
  ended b = record x { backend = b; active = before ++ after; completed = e ∷ x.completed }

  abbrev pub ready : System S Num Time
  ready = at_phase x.backend reading

  saved-Steps :
      (url : Text) (p : ParsedTransaction Num) (fields : Critical Num) (b' : Backend S Num Time)
      (u : Unit {0})
      → read_receipt w e.payload ≡ ok (url, p)
      → critical_fields p ≡ some fields
      → save_receipt store e.payload url p.confidence fields x.backend ≡ (ok u, b')
      → Steps Image store ready (ended b')
  unfolding save_receipt
  saved-Steps url p fields b' u read full done =
      elim (Call-cases
        (find_duplicate store fields.transaction_id fields.amount fields.timestamp x.backend.db)) [
          | inr (m, s1, failed) ↦ absurd (err-ne-ok (rw (failed, save_receipt) at done))
          | inl (o, s1, looked) ↦
              elim (Call-cases
                (create store (create_dto e.payload url fields p.confidence (is_some o)) s1)) [
                  | inr (m, s2, failed) ↦ absurd (err-ne-ok (rw (looked, failed) at done))
                  | inl (t, s2, made) ↦
                      let phase : Phase Num = looked_up url p.confidence fields (is_some o) in
                      let between : Backend S Num Time = record x.backend { db = s1 } in
                      let reach : Steps Image store ready (at_phase between phase) =
                        then ready (at_phase between phase) here (
                          advance before after (record { entry = e; phase = reading }) between phase
                            refl (look_up w url p fields o s1 read full looked)) in
                      subst (λ z. Steps Image store ready (ended z))
                        (ok_pair (rw (looked, made) at done)).1
                        (then (at_phase between phase) _ reach (
                          complete before after (record { entry = e; phase = phase }) _ refl
                            (insert url p.confidence fields (is_some o) t s2 made)))
                ]
        ]

  -- A run of `processImageJob` that returns, taken from the state of a system in which its job is
  -- under way, is a way through the steps: the job ends, and the shared state is the one it left.
  pub process_image_job-Steps :
      (b' : Backend S Num Time) (u : Unit {0})
      → process_image_job store w e.payload x.backend ≡ (ok u, b')
      → Steps Image store ready (ended b')
  unfolding process_image_job
  process_image_job-Steps b' u done = elim (Result-cases (read_receipt w e.payload)) [
    | inr (m, failed) ↦ absurd (err-ne-ok (rw failed at done))
    | inl ((url, p), read) ↦ elim (Option-cases (critical_fields p)) [
      | inl missing ↦
          subst (λ z. Steps Image store ready (ended z)) (ok_pair (rw (read, missing) at done)).1
            (then ready _ here (
              complete before after (record { entry = e; phase = reading }) x.backend refl
                (skip w url p read missing)))
      | inr (fields, full) ↦ saved-Steps url p fields b' u read full (rw (read, full) at done)
    ]
  ]
