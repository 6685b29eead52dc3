-- ===== src/Tests/Shared.antt =====
-- The theorems on src/shared at single contexts.
use birr_track_backend.Base.{ℕ, ◌≡◌, ◌≢◌, ◌↔◌, arith, none, some, codes}
use birr_track_backend.Shared.Exceptions.{
  Exception, error, FilterResponse, catch_exception, IsAnswer, catch_exception_answers,
}
use birr_track_backend.Shared.Throttler.{ContextArg, build_non_http_tracker}
use birr_track_backend.Shared.Throttler.Trackers.{HasNoColon, client, build_non_http_tracker_iff}

abbrev failure : Exception ℕ
failure = error (codes "QueryFailedError") (codes "duplicate key")

catch_exception_answers_example :
    (codes "http" ≡ codes "http"
      → (r : FilterResponse ℕ) × ((catch_exception (codes "http") failure).1 ≡ some r)
        × IsAnswer failure r)
    × (codes "http" ≢ codes "http" → (catch_exception (codes "http") failure).1 ≡ none)
catch_exception_answers_example = catch_exception_answers (codes "http") failure

abbrev of_chat : ContextArg
of_chat = record { from_id = none; chat_id = some (codes "7"); update_id = some (codes "1") }

abbrev of_sender : ContextArg
of_sender = record {
  from_id = some (codes "7");
  chat_id = some (codes "7");
  update_id = some (codes "1");
}

ws-HasNoColon : HasNoColon (codes "ws")
ws-HasNoColon = (λ e. omega arith, (λ e. omega arith, tt))

build_non_http_tracker_iff_example :
    (build_non_http_tracker (codes "ws") of_chat ≡ build_non_http_tracker (codes "ws") of_sender)
    ↔ ((codes "ws" ≡ codes "ws") × (client of_chat ≡ client of_sender))
build_non_http_tracker_iff_example =
    build_non_http_tracker_iff (codes "ws") (codes "ws") of_chat of_sender ws-HasNoColon
      ws-HasNoColon
