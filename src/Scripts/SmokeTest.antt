-- ===== src/Scripts/SmokeTest.antt =====
-- src/scripts/smoke-test-e2e.ts, which sends a photo to a running instance and waits for its
-- transaction. The environment, the clock and the instance are parameters; what is printed is left
-- out. The two loops run on fuel.
pub mod Ending
pub mod Polling
pub mod Passed
pub mod Endless
use birr_track_backend.Base.{
  ℕ, zero, suc, Option, none, some, List, [], ◌∷◌, ◌++◌, Text, codes, find_first, if◌then◌else◌,
}
use birr_track_backend.Base.Results.{Result, ok, err}
use birr_track_backend.Js.Numbers.{decimal, parse_int}
use birr_track_backend.Telegram.Service.{Context, message, photo}
use birr_track_backend.Scripts.{Env, webhook_url, webhook_secret}
use birr_track_backend.Scripts.SmokeSettings.{
  Number, Item, Readings, health_poll_interval_ms, poll_interval_ms, get_required_env_of,
  app_base_url, wait_for_backend_ms, timeout_ms, is_healthy, gives_up, is_waiting, is_recent,
}

-- The running instance and the clock. A call that throws has an error for its answer.
pub record Instance (S Summary : Type 0) : Type 0 where
  pub date_now : S → ℕ × S
  pub sleep : ℕ → S → S
  pub get_health : Text → S → Result ℕ × S
  pub post_update : Text → Context → S → Result (Unit {0}) × S
  pub get_transactions : Text → Text → S → Result (List Item) × S
  pub get_summary : Text → Text → S → Result Summary × S

abbrev not_reachable : Text → Text
not_reachable url =
    codes "Backend is not reachable at "
    ++ (url
        ++ (codes ". Start the API first (e.g. npm run start:dev). "
            ++ codes
                "If the server starts in parallel, set SMOKE_WAIT_FOR_BACKEND_MS=120000 in .env."))

-- The message that the script sends: its sender and its one photo.
abbrev pub smoke_update : Text → Text → Context
smoke_update user file_id = record {
  update = message (photo (record { width = 1280; height = 960; file_id = file_id } ∷ []));
  from = some (record {
    id = parse_int user;
    first_name = some (codes "Smoke");
    last_name = some (codes "Test");
    username = none;
  });
}

-- A call that may throw, or that has not ended.
abbrev pub Run : Type 0 → Type 0 → Type 0
Run S A = S → Option (Result A × S)

abbrev pub and_then :
    {S A B : Type 0} → Option (Result A × S) → (A → Run S B) → Option (Result B × S)
and_then none k = none
and_then (some (err e, s)) k = some (err e, s)
and_then (some (ok a, s)) k = k a s

infixl 5 ◌>>=◌ ◌>>◌
abbrev pub ◌>>=◌ : {S A B : Type 0} → Run S A → (A → Run S B) → Run S B
◌>>=◌ m k s = and_then (m s) k

abbrev pub ◌>>◌ : {S A B : Type 0} → Run S A → Run S B → Run S B
m >> k = m >>= λ _. k

-- A call that ends.
abbrev pub call : {S A : Type 0} → (S → Result A × S) → Run S A
call f s = some (f s)

abbrev pub value : {S A : Type 0} → (S → A × S) → Run S A
value f s = let (a, s') = f s in some (ok a, s')

abbrev pub given_result : {S A : Type 0} → Result A → Run S A
given_result r s = some (r, s)

-- An empty id is falsy.
abbrev pub found_id : Option Text → Result Text
found_id (some (c ∷ s)) = ok (c ∷ s)
found_id _ = err (codes "Timed out waiting for processed transaction. Check worker/OCR/LLM logs.")

module _ {S Summary : Type 0} (js : Readings) (app : Instance S Summary) where
  -- The loop that waits for the instance.
  unfoldable pub wait_for_health : ℕ → Text → Number → ℕ → Run S (Unit {0})
  wait_for_health zero url wait from s = none
  wait_for_health (suc fuel) url wait from s =
      let (health, s1) = app.get_health url s in
      let (now, s2) = app.date_now s1 in
      let rest = wait_for_health fuel url wait from (app.sleep health_poll_interval_ms s2) in
      if is_healthy health
      then some (ok tt, s1)
      else if gives_up wait from now
      then some (err (not_reachable url), s2)
      else rest

  abbrev pub or_next :
      Option Item → S → Option (Result (Option Text) × S) → Option (Result (Option Text) × S)
  or_next (some item) s rest = some (ok (some item.id), s)
  or_next none s rest = rest

  -- What an answer of the listing means to the loop: its end, or another round.
  abbrev pub seen :
      Text
      → ℕ
      → Result (List Item)
      → S
      → Option (Result (Option Text) × S)
      → Option (Result (Option Text) × S)
  seen user start (err e) s rest = some (err e, s)
  seen user start (ok items) s rest = or_next (find_first (is_recent js user start) items) s rest

  -- The loop that waits for the transaction.
  unfoldable pub poll : ℕ → Text → Text → ℕ → Number → Run S (Option Text)
  poll zero url user start timeout s = none
  poll (suc fuel) url user start timeout s =
      let (now, s1) = app.date_now s in
      let (answer, s2) = app.get_transactions url user s1 in
      let rest = poll fuel url user start timeout (app.sleep poll_interval_ms s2) in
      if is_waiting timeout start now then seen user start answer s2 rest else some (ok none, s1)

  -- From the health check on.
  abbrev pub smoke_run : ℕ → Env → Text → Text → ℕ → Run S (Text × Summary)
  smoke_run fuel env file_id user start = do
    from ← value app.date_now
    wait_for_health fuel (app_base_url js env) (wait_for_backend_ms js env) from
    call (
        app.post_update (webhook_url (app_base_url js env) (webhook_secret env))
          (smoke_update user file_id))
    found ← poll fuel (app_base_url js env) user start (timeout_ms js env)
    id ← given_result (found_id found)
    summary ← call (app.get_summary (app_base_url js env) user)
    given_result (ok (id, summary))

  -- `main`, to the id and the summary that it prints.
  unfoldable pub smoke_test : ℕ → Env → Run S (Text × Summary)
  unfolding wait_for_health poll
  smoke_test fuel env = do
    file_id ← given_result (get_required_env_of env (codes "SMOKE_TELEGRAM_FILE_ID"))
    user_number ← value app.date_now
    start ← value app.date_now
    smoke_run fuel env file_id (codes "99" ++ decimal user_number) start
