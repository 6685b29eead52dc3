-- ===== src/Scripts.antt =====
-- src/scripts/setup-telegram-webhook.ts, which tells Telegram where to send updates. The environment
-- and the answers of the Bot API are parameters; what is printed is left out.
pub mod Address
pub mod SmokeSettings
pub mod SmokeTest
use birr_track_backend.Base.{
  Bool, true, false, ◌&&◌, not, Option, none, some, List, [], ◌∷◌, ◌++◌, Text, codes, trim, is_some,
  ◌==◌, if◌then◌else◌,
}
use birr_track_backend.Base.Results.{Result, ok, err, ◌>>=◌}
use birr_track_backend.Processing.Files.{trimmed}
use birr_track_backend.Processing.Services.{required}

-- `process.env`.
abbrev pub Env : Type 0
Env = Text → Option Text

-- `TelegramApiResponse`, with a result of any type.
pub record TelegramApiResponse (A : Type 0) : Type 0 where
  pub is_ok : Bool
  pub result : Option A
  pub description : Option Text

-- `process.env[name]?.trim()`.
abbrev pub trimmed_env : Env → Text → Option Text
trimmed_env env name = trimmed (env name)

-- `text || next`.
abbrev pub or_else_text : Option Text → Text → Text
or_else_text none next = next
or_else_text (some []) next = next
or_else_text (some (c ∷ s)) next = c ∷ s

unfoldable pub get_required_env : Env → Text → Result Text
get_required_env env name = required (trimmed_env env name) (name ++ codes " is required")

-- `value.endsWith('/') ? value.slice(0, -1) : value`.
unfoldable pub normalize_url : Text → Text
normalize_url [] = []
normalize_url (c ∷ []) = if c == b'/' then [] else c ∷ []
normalize_url (c ∷ d ∷ s) = c ∷ normalize_url (d ∷ s)

unfoldable pub webhook_secret : Env → Text
webhook_secret env =
    or_else_text (trimmed_env env (codes "TELEGRAM_WEBHOOK_SECRET"))
      (codes "default-webhook-secret")

unfoldable pub base_url_of : Env → Text
unfolding normalize_url
base_url_of env = normalize_url (
    or_else_text (trimmed_env env (codes "TELEGRAM_WEBHOOK_BASE_URL"))
      (or_else_text (trimmed_env env (codes "APP_BASE_URL")) []))

-- `${baseUrl}/telegram/webhook/${secret}`.
unfoldable pub webhook_url : Text → Text → Text
webhook_url base_url secret = base_url ++ (codes "/telegram/webhook/" ++ secret)

abbrev checked_set : {A : Type 0} → TelegramApiResponse A → Result (Unit {0})
checked_set response =
    if response.is_ok
    then ok tt
    else err (or_else_text response.description (codes "Failed to set webhook"))

abbrev info_of : {A : Type 0} → Bool → Option A → Result A
info_of true (some info) = ok info
info_of _ _ = err (codes "Webhook configured but getWebhookInfo failed")

abbrev api : Text → Text → Text
api token method = codes "https://api.telegram.org/bot" ++ token ++ codes "/" ++ method

abbrev no_base : Text
no_base = codes "Set TELEGRAM_WEBHOOK_BASE_URL or APP_BASE_URL before running this script"

-- `main`, to the information that it prints.
unfoldable pub main :
    {A Info : Type 0}
    → Env
    → (Text → Text → Result (TelegramApiResponse A))
    → (Text → Result (TelegramApiResponse Info))
    → Result Info
unfolding get_required_env webhook_secret base_url_of webhook_url
main env post get = do
  token ← get_required_env env (codes "TELEGRAM_BOT_TOKEN")
  base_url ← required (some (base_url_of env)) no_base
  set_response ← post (api token (codes "setWebhook")) (webhook_url base_url (webhook_secret env))
  checked ← checked_set set_response
  info_response ← get (api token (codes "getWebhookInfo"))
  info_of info_response.is_ok info_response.result
