-- ===== src/Tests/SmokeTest.antt =====
-- The smoke test against an instance that starts after five seconds and lists a transaction after
-- nine. The state is the clock.
use birr_track_backend.Base.{
  ℕ, ◌+◌, ◌≡◌, refl, arith, none, some, [], ◌∷◌, codes, text_eq, trim, is_space, trim_start,
  starts_with, ltb, if◌then◌else◌,
}
use birr_track_backend.Base.Results.{ok, err}
use birr_track_backend.Js.Numbers.{decimal, parse_int, parse_int_from}
use birr_track_backend.Telegram.Service.{photo_payload, build_display_name}
use birr_track_backend.Scripts.{Env, normalize_url, webhook_secret, webhook_url}
use birr_track_backend.Scripts.SmokeSettings.{natural, Item, Readings, replace_port, app_base_url}
use birr_track_backend.Scripts.SmokeTest.{Instance, wait_for_health, poll, smoke_test}
use birr_track_backend.Scripts.SmokeTest.Ending.{IsClock, Ends}
use birr_track_backend.Scripts.SmokeTest.Passed.{IsPassed, smoke_test-Ends}

-- What a run of the script computes with.
smoke : Unit {0}
unfolding text_eq trim is_space trim_start starts_with decimal parse_int parse_int_from
    normalize_url webhook_secret webhook_url replace_port app_base_url wait_for_health poll
    smoke_test
smoke = tt

abbrev env : Env
env name =
    if text_eq name (codes "SMOKE_TELEGRAM_FILE_ID")
    then some (codes "AgAC")
    else if text_eq name (codes "SMOKE_WAIT_FOR_BACKEND_MS")
    then some (codes "6000")
    else if text_eq name (codes "APP_BASE_URL")
    then some (codes "http://localhost:${PORT}/")
    else if text_eq name (codes "PORT")
    then some (codes "8080")
    else none

abbrev readings : Readings
readings = record {
  number = λ t. natural (parse_int t);
  truthy_number = λ t. some t;
  get_time = λ t. some (parse_int t);
}

abbrev item : Item
item = record { id = codes "t1"; telegram_user_id = codes "990"; created_at = codes "9000" }

abbrev app : Instance ℕ ℕ
app = record {
  date_now = λ s. (s, s);
  sleep = λ ms s. s + ms;
  get_health = λ url s. (if ltb s 5000 then err (codes "ECONNREFUSED") else ok 200, s);
  post_update = λ url context s. (ok tt, s);
  get_transactions = λ url user s. (ok (if ltb s 9000 then [] else item ∷ []), s);
  get_summary = λ url user s. (ok 1, s);
}

clock_runs : IsClock app (λ s. s)
clock_runs = record {
  now_read = λ s. (omega arith, omega arith);
  slept = λ ms s. omega arith;
  after_health = λ url s. omega arith;
  after_post = λ url c s. omega arith;
  after_listing = λ url user s. omega arith;
}

smoke_test-Ends_example :
    Ends (smoke_test readings app 41 env 0) (IsPassed readings app (λ s. s) env 0)
unfolding smoke
smoke_test-Ends_example =
    smoke_test-Ends readings app (λ s. s) clock_runs env 40 6000 120000 0 (omega arith)
      (omega arith) (omega arith) (omega arith)

test_passes : smoke_test readings app 41 env 0 ≡ some (ok (codes "t1", 1), 9000)
unfolding smoke
test_passes = refl

test_url : app_base_url readings env ≡ codes "http://localhost:8080"
unfolding smoke
test_url = refl

-- The update is queued under the name "Smoke Test", not "Smoke Test User", which the script prints.
test_name :
    photo_payload
      (record {
        id = 990;
        first_name = some (codes "Smoke");
        last_name = some (codes "Test");
        username = none;
      })
      (record { width = 1280; height = 960; file_id = codes "AgAC" })
    ≡ record {
      telegram_user_id = codes "990";
      telegram_name = codes "Smoke Test";
      file_id = codes "AgAC";
    }
unfolding smoke photo_payload build_display_name trim
test_name = refl
