-- ===== src/Tests/Workers.antt =====
-- The theorems on interleaved runs, with two jobs of one receipt.
use birr_track_backend.Base.{ℕ, ◌+◌, ◌*◌, ◌≤◌, length, refl, arith, [], ◌∷◌}
use birr_track_backend.Tests.Decimal.{hundredths}
use birr_track_backend.Tests.Database.{day_numbers, Db, memory, memory-IsStore}
use birr_track_backend.Tests.Processing.{world, payload, start, once, job_runs}
use birr_track_backend.Processing.Workers.{
  Entry, Run, System, Steps, Steps-trans, here, then, idle, reading,
}
use birr_track_backend.Processing.Workers.Announced.{IsAnnounced, Steps-IsAnnounced}
use birr_track_backend.Processing.Workers.Simulation.{ready, ended, process_image_job-Steps}
use birr_track_backend.Processing.Workers.Ending.{work, Chain, none_yet, one_more, Chain-bounded}
use birr_track_backend.Processing.Workers.Draining.{Drained, Steps-Drained}
use birr_track_backend.Processing.Workers as Workers

abbrev job : Entry
job = record { payload = payload; attempt = 1 }

abbrev empty : System Db ℕ ℕ
empty = idle start

abbrev queued : System Db ℕ ℕ
queued = record empty { waiting = job ∷ []; enqueued = payload ∷ [] }

abbrev under_way : System Db ℕ ℕ
under_way = record queued { waiting = []; active = record { entry = job; phase = reading } ∷ [] }

abbrev finished : System Db ℕ ℕ
finished = ended memory world under_way [] [] job once

process_image_job-Steps_example :
    Steps (Unit {0}) memory (ready memory world under_way [] [] job) finished
process_image_job-Steps_example =
    process_image_job-Steps memory world under_way [] [] job once tt job_runs

both-Steps : Steps (Unit {0}) memory empty finished
both-Steps =
    Steps-trans (Unit {0}) memory empty under_way finished
      (then queued under_way (then empty queued here (Workers.enqueue payload))
        (Workers.start [] [] job refl (omega arith)))
      (process_image_job-Steps memory world under_way [] [] job once tt job_runs)

Steps-IsAnnounced_example : IsAnnounced (Unit {0}) memory memory-IsStore start finished
Steps-IsAnnounced_example =
    Steps-IsAnnounced (Unit {0}) memory memory-IsStore start finished both-Steps

queued-Steps : Steps (Unit {0}) memory empty queued
queued-Steps = then empty queued here (Workers.enqueue payload)

two_steps : Chain (Unit {0}) memory empty 2 under_way
two_steps =
    one_more 1 queued under_way (one_more 0 empty queued none_yet (Workers.enqueue payload))
      (Workers.start [] [] job refl (omega arith))

Chain-bounded_example : 2 + work under_way ≤ 10 * length under_way.enqueued
Chain-bounded_example = Chain-bounded (Unit {0}) memory start under_way 2 two_steps

Steps-Drained_example : Drained memory world queued
Steps-Drained_example = Steps-Drained memory world start queued queued-Steps
