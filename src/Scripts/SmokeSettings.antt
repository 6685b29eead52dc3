-- ===== src/Scripts/SmokeSettings.antt =====
-- What src/scripts/smoke-test-e2e.ts reads from its environment, and the conditions of its loops.
use birr_track_backend.Base.{
  ℕ, zero, suc, ◌+◌, ◌-◌, Bool, true, false, ◌&&◌, ◌||◌, Option, none, some, [], ◌∷◌, ◌++◌, Text,
  codes, text_eq, starts_with, ltb, leb, ◌==◌, if◌then◌else◌,
}
use birr_track_backend.Base.Results.{Result, ok, err}
use birr_track_backend.Processing.Services.{required}
use birr_track_backend.Scripts.{Env, trimmed_env, or_else_text, normalize_url}

-- `Number(text)`, as far as the script compares it with a time: the numbers from 0 on are whole ones.
pub data Number : Type 0 where
  not_a_number negative : Number
  natural : ℕ → Number

-- An item of `TransactionsResponse`.
pub record Item : Type 0 where
  pub id : Text
  pub telegram_user_id : Text
  pub created_at : Text

-- What the script takes of the language: `Number(text)`, its text if it is not 0 or NaN, and
-- `new Date(text).getTime()`, with `none` for NaN.
pub record Readings : Type 0 where
  pub number : Text → Number
  pub truthy_number : Text → Option Text
  pub get_time : Text → Option ℕ

abbrev pub health_poll_interval_ms : ℕ
health_poll_interval_ms = 2000

abbrev pub poll_interval_ms : ℕ
poll_interval_ms = 3000

abbrev pub default_timeout_ms : Number
default_timeout_ms = natural 120000

abbrev non_empty : Option Text → Option Text
non_empty none = none
non_empty (some []) = none
non_empty (some (c ∷ s)) = some (c ∷ s)

-- `getEnv`.
abbrev pub get_env : Env → Text → Option Text
get_env env name = non_empty (trimmed_env env name)

-- `getRequiredEnv`.
abbrev pub get_required_env_of : Env → Text → Result Text
get_required_env_of env name = required (get_env env name) (name ++ codes " is required")

abbrev or_3000 : Option Text → Text
or_3000 none = codes "3000"
or_3000 (some port) = port

abbrev truthy : Readings → Option Text → Option Text
truthy js none = none
truthy js (some text) = js.truthy_number text

-- `Number(process.env.PORT) || 3000`.
abbrev port_of : Readings → Env → Text
port_of js env = or_3000 (truthy js (env (codes "PORT")))

abbrev default_local_app_base_url : Readings → Env → Text
default_local_app_base_url js env = codes "http://127.0.0.1:" ++ port_of js env

-- `url.replaceAll('${PORT}', port)`; of a match, the seven units are passed over.
unfoldable pub replace_port : Text → ℕ → Text → Text
unfolding starts_with
replace_port port skip [] = []
replace_port port zero (c ∷ url) =
    let matched = replace_port port 6 url in
    let rest = replace_port port 0 url in
    if starts_with (codes "${PORT}") (c ∷ url) then port ++ matched else c ∷ rest
replace_port port (suc skip) (c ∷ url) = replace_port port skip url

abbrev resolve_base_url_template : Readings → Env → Text → Text
resolve_base_url_template js env url = replace_port (port_of js env) 0 url

unfoldable pub app_base_url : Readings → Env → Text
unfolding replace_port normalize_url
app_base_url js env = normalize_url (
    resolve_base_url_template js env (
      or_else_text (get_env env (codes "SMOKE_APP_BASE_URL"))
        (or_else_text (get_env env (codes "APP_BASE_URL")) (default_local_app_base_url js env))))

abbrev number_or : Readings → Option Text → Number → Number
number_or js none next = next
number_or js (some text) next = js.number text

abbrev pub wait_for_backend_ms : Readings → Env → Number
wait_for_backend_ms js env =
    number_or js (get_env env (codes "SMOKE_WAIT_FOR_BACKEND_MS")) (natural 0)

abbrev pub timeout_ms : Readings → Env → Number
timeout_ms js env = number_or js (get_env env (codes "SMOKE_TIMEOUT_MS")) default_timeout_ms

-- `healthStatus === 200`.
abbrev pub is_healthy : Result ℕ → Bool
is_healthy (ok status) = status == 200
is_healthy (err e) = false

-- `Date.now() > healthWaitDeadline || waitForBackendMs <= 0`, with the deadline a time and the wait.
abbrev pub gives_up : Number → ℕ → ℕ → Bool
gives_up not_a_number from now = false
gives_up negative from now = true
gives_up (natural wait) from now = ltb (from + wait) now || (wait == 0)

-- `Date.now() - startTime < timeoutMs`.
abbrev pub is_waiting : Number → ℕ → ℕ → Bool
is_waiting (natural timeout) start now = ltb (now - start) timeout
is_waiting _ start now = false

abbrev pub is_since : ℕ → Option ℕ → Bool
is_since start none = false
is_since start (some time) = leb start time

-- What `find` looks for.
abbrev pub is_recent : Readings → Text → ℕ → Item → Bool
is_recent js user start item =
    text_eq item.telegram_user_id user && is_since start (js.get_time item.created_at)
